-- ===== src/Containment/Parse.antt =====
-- The exit code that a probe prints, and what its absence means.
use c_s_cool_stuff.Prelude.{◌≡◌, ◌≢◌, true, none, List, [], ◌∷◌, arith, Codes, All}
use c_s_cool_stuff.Containment.{
  Target, search_rc, parse_rc, probe_command, negative_control, positive_control, forbidden,
  is_reachable, probe_all, verify,
}
use c_s_cool_stuff.Containment.Verdict.{
  Reaches, after_listen, after_controls, IsBlocked, verified_of_blocked,
}

parse_rc_silent : (output : Codes) → search_rc output ≡ none → parse_rc output ≢ 0
unfolding parse_rc
parse_rc_silent output h = ground arith

module _ (World : Type 0) (run : World → Codes → Codes × World) where
  silent-IsBlocked :
      (w : World) (t : Target)
      → search_rc (run w (probe_command t)).0 ≡ none
      → IsBlocked (is_reachable World run w t).0
  unfolding is_reachable
  silent-IsBlocked w t h = ground (arith, parse_rc_silent (run w (probe_command t)).0 h)

  silent-All :
      (w : World) (ts : List Target)
      → ((w' : World) → All (λ t. search_rc (run w' (probe_command t)).0 ≡ none) ts)
      → All IsBlocked (probe_all World run w ts).0
  unfolding probe_all
  silent-All w [] h = tt
  silent-All w (t ∷ ts) h =
      (silent-IsBlocked w t (h w).0, silent-All (is_reachable World run w t).1 ts (λ w'. (h w').1))

-- A probe that prints no exit code at all for the forbidden destinations attests containment, once
-- the two controls have answered as they should.
pub silent_probe_verified :
    (World : Type 0) (run : World → Codes → Codes × World) (w : World)
    → ¬ Reaches World run w negative_control
    → Reaches World run (after_listen World run w) positive_control
    → ((w' : World) → All (λ t. search_rc (run w' (probe_command t)).0 ≡ none) forbidden)
    → (verify World run w).0.verified ≡ true
silent_probe_verified World run w negative positive silent =
    verified_of_blocked World run w negative positive
      (silent-All World run (after_controls World run w) forbidden silent)
