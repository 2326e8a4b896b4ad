-- ===== src/Containment/Verdict.antt =====
-- What a containment report attests: the controls worked, and every forbidden destination was tried
-- and not reached.
use c_s_cool_stuff.Prelude.{
  ◌≡◌, refl, sym, ap₂, subst, ◌↔◌, inl, inr, Bool, true, false, none, some, List, [], ◌∷◌, map,
  arith, All, Codes, Bool-cases,
}
use c_s_cool_stuff.Containment.{
  Target, ProbeResult, ContainmentReport, parse_rc, search_rc, probe_command, listen_command,
  negative_control, positive_control, forbidden, is_reachable, positive_probe,
  assert_probe_trustworthy, probe_all, failures_of, report_on, untrustworthy, is_empty, verify,
  require_containment,
}

abbrev pub IsBlocked : ProbeResult → Type 0
IsBlocked r = r.reachable ≡ false

failures_of_iff : (rs : List ProbeResult) → (is_empty (failures_of rs) ≡ true) ↔ All IsBlocked rs
unfolding failures_of
failures_of_iff [] = (λ h. tt, λ h. refl)
failures_of_iff (r ∷ rs) = ground (arith, failures_of_iff rs)

module _ (World : Type 0) (run : World → Codes → Codes × World) where
  targets-probe_all :
      (w : World) (ts : List Target) → map (λ r. r.target) (probe_all World run w ts).0 ≡ ts
  unfolding probe_all is_reachable
  targets-probe_all w [] = refl
  targets-probe_all w (t ∷ ts) = ap₂ ◌∷◌ refl (targets-probe_all (is_reachable World run w t).1 ts)

  -- The probe of `t` in the world `w` gets through: the leftmost exit code that it prints is 0.
  abbrev pub Reaches : World → Target → Type 0
  Reaches w t = search_rc (run w (probe_command t)).0 ≡ some 0

  -- The world after a probe.
  abbrev pub after_probe : World → Target → World
  after_probe w t = (run w (probe_command t)).1

  -- The worlds in which the listener is started, in which the probe looks for it, and in which the
  -- forbidden destinations are tried.
  abbrev pub after_negative : World → World
  after_negative w = after_probe w negative_control

  abbrev pub after_listen : World → World
  after_listen w = (run (after_negative w) listen_command).1

  abbrev pub after_controls : World → World
  after_controls w = after_probe (after_listen w) positive_control

  -- Probed one after another, none of the destinations is reached, and `last` is the world in the end.
  abbrev pub Unreached : World → List Target → World → Type 0
  Unreached w [] last = last ≡ w
  Unreached w (t ∷ ts) last = (¬ Reaches w t) × Unreached (after_probe w t) ts last

  -- A destination counts as reachable exactly when the leftmost exit code in the output is 0; an
  -- output with no exit code, or with another, counts as blocked.
  pub is_reachable_iff :
      (w : World) (t : Target) → ((is_reachable World run w t).0.reachable ≡ true) ↔ Reaches w t
  unfolding is_reachable parse_rc
  is_reachable_iff w t = ground arith

  is_reachable-world : (w : World) (t : Target) → (is_reachable World run w t).1 ≡ after_probe w t
  unfolding is_reachable
  is_reachable-world w t = refl

  probe_all-Unreached :
      (w : World) (ts : List Target)
      → All IsBlocked (probe_all World run w ts).0
      → Unreached w ts (probe_all World run w ts).1
  unfolding probe_all
  probe_all-Unreached w [] h = refl
  probe_all-Unreached w (t ∷ ts) (b, bs) = (
    λ e. cc (b, (is_reachable_iff w t).1 e),
    subst (λ v. Unreached v ts (probe_all World run (is_reachable World run w t).1 ts).1)
        (is_reachable-world w t) (probe_all-Unreached (is_reachable World run w t).1 ts bs),
  )

  abbrev pub results : World → List ProbeResult
  results w = (probe_all World run (after_controls w) forbidden).0

  abbrev trusted : World → Bool
  trusted w = (assert_probe_trustworthy World run w).0.0

  trusted_iff :
      (w : World)
      → (trusted w ≡ true)
        ↔ ((¬ Reaches w negative_control) × Reaches (after_listen w) positive_control)
  unfolding assert_probe_trustworthy positive_probe
  trusted_iff w =
      let first = is_reachable_iff w negative_control in
      let later =
        subst
          (λ v.
            ((is_reachable World run (run v listen_command).1 positive_control).0.reachable ≡ true)
            ↔ Reaches (run v listen_command).1 positive_control)
          (sym (is_reachable-world w negative_control))
          (is_reachable_iff (after_listen w) positive_control) in
      ground (arith, first, later, is_reachable-world w negative_control)

  after_trusted :
      (w : World) → trusted w ≡ true → (assert_probe_trustworthy World run w).1 ≡ after_controls w
  unfolding assert_probe_trustworthy positive_probe is_reachable
  after_trusted w h = ground arith

  -- The controls worked, the forbidden destinations were probed after them and none was reached, up to the
  -- world `last`, and the report has a result for each of them, that it is blocked.
  pub record Contained (w : World) (report : ContainmentReport) (last : World) : Type 0 where
    pub negative : ¬ Reaches w negative_control
    pub positive : Reaches (after_listen w) positive_control
    pub attested : report.probe_trustworthy ≡ true
    pub tried : map (λ r. r.target) report.results ≡ forbidden
    pub blocked : All IsBlocked report.results
    pub unreached : Unreached (after_controls w) forbidden last

  verify_trusted :
      (w : World)
      → trusted w ≡ true
      → verify World run w ≡ (
        report_on (assert_probe_trustworthy World run w).0.1 (results w),
        (probe_all World run (after_controls w) forbidden).1,
      )
  unfolding verify
  verify_trusted w h = ground (arith, after_trusted w)

  verify_untrusted :
      (w : World)
      → trusted w ≡ false
      → (verify World run w).0 ≡ untrustworthy (assert_probe_trustworthy World run w).0.1
  unfolding verify
  verify_untrusted w h = ground arith

  pub verified_of_blocked :
      (w : World)
      → ¬ Reaches w negative_control
      → Reaches (after_listen w) positive_control
      → All IsBlocked (results w)
      → (verify World run w).0.verified ≡ true
  unfolding report_on
  verified_of_blocked w negative positive blocked =
      rw (verify_trusted w ((trusted_iff w).1 (negative, positive)))
        ((failures_of_iff (results w)).1 blocked)

-- `verify` reports the guest as contained exactly when the probe of the negative control does not get
-- through, the probe of the positive control does once the listener is started, and the probes of the four
-- forbidden destinations, run after these one by one, do not get through; the world then is the one that
-- the last of them leaves, and the report has a result for each, that it is blocked. A probe gets through
-- when the leftmost exit code that it prints is 0.
pub verify-Contained :
    (World : Type 0) (run : World → Codes → Codes × World) (w : World)
    → let (report, last) = verify World run w in
      (report.verified ≡ true) ↔ Contained World run w report last
verify-Contained World run w = elim (Bool-cases (trusted World run w)) [
  | inl t ↦
      let reason = (assert_probe_trustworthy World run w).0.1 in
      let rs = results World run w in
      let (negative, positive) = (trusted_iff World run w).0 t in
      rw (verify_trusted World run w t) (
        unfold report_on in
        (
          λ h. record {
            negative = negative;
            positive = positive;
            attested = refl;
            tried = targets-probe_all World run (after_controls World run w) forbidden;
            blocked = (failures_of_iff rs).0 h;
            unreached =
                probe_all-Unreached World run (after_controls World run w) forbidden
                  ((failures_of_iff rs).0 h);
          },
          λ c. (failures_of_iff rs).1 c.blocked,
        ))
  | inr t ↦ rw (verify_untrusted World run w t) (λ h. cc, λ c. cc (c.attested))
]

-- `require_containment` returns a report only for a contained guest, and the report is the one that
-- `verify` made; otherwise it raises.
require_containment-Contained :
    (World : Type 0) (run : World → Codes → Codes × World) (w : World)
    → ((report : ContainmentReport)
        → (require_containment World run w).0 ≡ some report
        → Contained World run w report (verify World run w).1)
      × ((require_containment World run w).0 ≡ none
          → ¬ Contained World run w (verify World run w).0 (verify World run w).1)
unfolding require_containment
require_containment-Contained World run w = elim (Bool-cases (verify World run w).0.verified) [
  | inl h ↦ (
    λ report e.
        subst (λ r. Contained World run w r (verify World run w).1) (ground arith)
          ((verify-Contained World run w).0 h),
    λ e. ground arith,
  )
  | inr h ↦ (λ report e. ground arith, λ e c. cc (h, (verify-Contained World run w).1 c))
]
