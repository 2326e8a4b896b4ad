-- ===== src/TraceSource/Declared.antt =====
-- What a trace of `ReplayTraceSource.run` of drishti/m3_dynamic/trace_source.py says of itself, whatever
-- stands in the fixture.
use c_s_cool_stuff.Prelude.{
  ◌≡◌, ◌≢◌, refl, sym, ap, ◌∙◌, subst, inl, inr, Bool, true, false, ◌||◌, Option, none, some, List,
  [], ◌∷◌, Codes, codes, same, same_iff, is_in, Bool-cases, if◌then◌else◌,
}
unfoldable use c_s_cool_stuff.Prelude.{same, is_in}
use c_s_cool_stuff.GenerativeC2.{Value, bool, text, array, Values, Entries, end, entry}
use c_s_cool_stuff.GenerativeC2.Gate.{put}
unfoldable use c_s_cool_stuff.GenerativeC2.Gate.{put}
use c_s_cool_stuff.TraceSource.Gcloud.{Attempt, returned, raised}
use c_s_cool_stuff.TraceSource.Replay.{
  TraceFixture, Replayed, replayed, failed, is_synthetic, disclosure, get, texts_of, and_last,
  items_of, half_of, declare, disclose, digest_or_hash, validated, replay_half, replay_fixture,
  run_replay,
}

both_false : (a b : Bool) → (a || b) ≡ false → (a ≡ false) × (b ≡ false)
both_false true b h = cc
both_false false b h = (refl, h)

either_false : {a b : Bool} → a ≡ false → b ≡ false → (a || (b || false)) ≡ false
either_false h k = rw (h, k) refl

-- The keys that a replay does not take from the fixture.
abbrev pub forced_keys : List Codes
forced_keys =
    codes "errors"
    ∷ codes "partial"
    ∷ codes "morphs_applied"
    ∷ codes "synthetic"
    ∷ codes "source"
    ∷ codes "run_id"
    ∷ []

module _ {F : Type 0} where
  get-put : (k : Codes) (v : Value F) (fs : Entries F) → get k (put k v fs) ≡ some v
  unfolding get put
  get-put k v end = rw ((same_iff k k).1 refl) refl
  get-put k v (entry j w fs) = elim (Bool-cases (same j k)) [
    | inl h ↦ rw (h, h) refl
    | inr h ↦ rw (h, h) (get-put k v fs)
  ]

  get-put_other :
      (k j : Codes) (v : Value F) (fs : Entries F)
      → same j k ≡ false
      → get k (put j v fs) ≡ get k fs
  unfolding get put
  get-put_other k j v end h = rw h refl
  get-put_other k j v (entry i w fs) h = elim (Bool-cases (same i j)) [
    | inl e ↦
        let q : same i k ≡ false = subst (λ t. same t k ≡ false) (sym ((same_iff i j).0 e)) h in
        rw (e, q) refl
    | inr e ↦ rw e (ap (λ t. if same i k then some w else t) (get-put_other k j v fs h))
  ]

  -- The trace of a fixture that is no capture is partial, and its errors end with the disclosure.
  abbrev pub Disclosed : (F → Bool) → Entries F → Entries F → Type 0
  Disclosed is_zero half h =
      (get (codes "partial") h ≡ some (bool true))
      × ((errors : Values F) × (items_of is_zero (get (codes "errors") half) ≡ returned errors)
          × (get (codes "errors") h ≡ some (array (and_last errors (text disclosure)))))

  -- The other keys keep their values.
  abbrev Beside : List Codes → Entries F → Entries F → Type 0
  Beside keys half h = (k : Codes) → is_in k keys ≡ false → get k h ≡ get k half

  put-Beside :
      (keys : List Codes) (j : Codes) (v : Value F) (half h : Entries F)
      → Beside keys half h
      → Beside (j ∷ keys) half (put j v h)
  unfolding is_in
  put-Beside keys j v half h beside k e =
      let (apart, rest) = both_false (same j k) (is_in k keys) e in
      get-put_other k j v h apart ∙ beside k rest

  with_errors-Disclosed :
      (is_zero : F → Bool) (half : Entries F) (items : Attempt (Values F)) {h : Entries F}
      → items_of is_zero (get (codes "errors") half) ≡ items
      → (elim items as (λ _. Attempt (Entries F)) [
        | raised why ↦ raised why
        | returned vs ↦ returned (
            put
              (codes "errors")
              (array (and_last vs (text disclosure)))
              (put (codes "partial") (bool true) half))
      ])
        ≡ returned h
      → Disclosed is_zero half h × Beside (codes "errors" ∷ codes "partial" ∷ []) half h
  unfolding same
  with_errors-Disclosed is_zero half (raised why) e q = cc
  with_errors-Disclosed is_zero half (returned vs) {h} e q =
      subst (λ t. Disclosed is_zero half t × Beside (codes "errors" ∷ codes "partial" ∷ []) half t)
        (returned_injective q)
        (
          (
            get-put_other (codes "partial") (codes "errors") _ _ refl ∙ get-put _ _ half,
            (vs, e, get-put (codes "errors") _ _),
          ),
          put-Beside _ _ _ half _ (put-Beside [] _ _ half half (λ k e'. refl)),
        )
    where
      returned_injective : {x y : Entries F} → returned x ≡ returned y → x ≡ y
      returned_injective k = cc

  disclose-Disclosed :
      (is_zero : F → Bool) (synthetic : Bool) (half : Entries F) {h : Entries F}
      → disclose is_zero synthetic half ≡ returned h
      → (synthetic ≡ true → Disclosed is_zero half h)
        × Beside (codes "errors" ∷ codes "partial" ∷ []) half h
  unfolding disclose same
  disclose-Disclosed is_zero false half {h} q = (λ e. cc, λ k e. ap (get k) (sym (same_entries q)))
    where
      same_entries : {x y : Entries F} → returned x ≡ returned y → x ≡ y
      same_entries k = cc
  disclose-Disclosed is_zero true half q =
      let (disclosed, beside) =
        with_errors-Disclosed is_zero half _
          (ap (items_of is_zero)
            (sym (get-put_other (codes "errors") (codes "partial") (bool true) half refl)))
          q in
      (λ e. disclosed, beside)

  -- What a half that is replayed says, and that it is the fixture's otherwise.
  pub record IsDeclared (is_zero : F → Bool) (run_id : Codes) (synthetic : Bool)
      (morphs : List Codes) (half h : Entries F) : Type 0 where
    pub says_replay : get (codes "source") h ≡ some (text (codes "replay"))
    pub says_synthetic : get (codes "synthetic") h ≡ some (bool synthetic)
    pub says_morphs : get (codes "morphs_applied") h ≡ some (array (texts_of morphs))
    pub says_run : get (codes "run_id") h ≡ some (text run_id)
    pub discloses : synthetic ≡ true → Disclosed is_zero half h
    pub otherwise : (k : Codes) → is_in k forced_keys ≡ false → get k h ≡ get k half

  declare-Beside :
      (run_id : Codes) (synthetic : Bool) (morphs : List Codes) (half : Entries F)
      → Beside
          (codes "morphs_applied" ∷ codes "synthetic" ∷ codes "source" ∷ codes "run_id" ∷ [])
          half
          (declare run_id synthetic morphs half)
  unfolding declare
  declare-Beside run_id synthetic morphs half = put-Beside _ _ _ half _ (
      put-Beside _ _ _ half _ (put-Beside _ _ _ half _ (put-Beside [] _ _ half half (λ k e. refl))))

  -- The last four assignments that are never the fixture's.
  module _ (run_id : Codes) (synthetic : Bool) (morphs : List Codes) (half : Entries F) where
    abbrev identified : Entries F
    identified = put (codes "run_id") (text run_id) half

    abbrev sourced : Entries F
    sourced = put (codes "source") (text (codes "replay")) identified

    abbrev marked : Entries F
    marked = put (codes "synthetic") (bool synthetic) sourced

    get_source-declare :
        get (codes "source") (declare run_id synthetic morphs half) ≡ some (text (codes "replay"))
    unfolding declare same
    get_source-declare =
        get-put_other _ (codes "morphs_applied") (array (texts_of morphs)) marked refl
        ∙ (get-put_other _ (codes "synthetic") (bool synthetic) sourced refl
            ∙ get-put _ _ identified)

    get_synthetic-declare :
        get (codes "synthetic") (declare run_id synthetic morphs half) ≡ some (bool synthetic)
    unfolding declare same
    get_synthetic-declare =
        get-put_other _ (codes "morphs_applied") (array (texts_of morphs)) marked refl
        ∙ get-put _ _ sourced

    get_morphs-declare :
        get (codes "morphs_applied") (declare run_id synthetic morphs half)
        ≡ some (array (texts_of morphs))
    unfolding declare
    get_morphs-declare = get-put _ _ marked

    get_run-declare :
        get (codes "run_id") (declare run_id synthetic morphs half) ≡ some (text run_id)
    unfolding declare same
    get_run-declare =
        get-put_other _ (codes "morphs_applied") (array (texts_of morphs)) marked refl
        ∙ (get-put_other _ (codes "synthetic") (bool synthetic) sourced refl
            ∙ (get-put_other _ (codes "source") (text (codes "replay")) identified refl
                ∙ get-put _ _ half))

    disclose-IsDeclared :
        (is_zero : F → Bool) {h : Entries F}
        → disclose is_zero synthetic (declare run_id synthetic morphs half) ≡ returned h
        → IsDeclared is_zero run_id synthetic morphs half h
    unfolding same is_in
    disclose-IsDeclared is_zero q =
        let (disclosed, beside) = disclose-Disclosed is_zero synthetic _ q in
        let kept = declare-Beside run_id synthetic morphs half in
        record {
          says_replay = beside (codes "source") refl ∙ get_source-declare;
          says_synthetic = beside (codes "synthetic") refl ∙ get_synthetic-declare;
          says_morphs = beside (codes "morphs_applied") refl ∙ get_morphs-declare;
          says_run = beside (codes "run_id") refl ∙ get_run-declare;
          discloses = λ e.
              let (is_partial, (errors, found, ending)) = disclosed e in
              (
                is_partial,
                (errors, ap (items_of is_zero) (sym (kept (codes "errors") refl)) ∙ found, ending),
              );
          otherwise = λ k e.
              let (a, e₁) = both_false _ _ e in
              let (b, e₂) = both_false _ _ e₁ in beside k (either_false a b) ∙ kept k e₂;
        }

module _ {F Trace : Type 0} (is_zero : F → Bool) (fixtures : Codes → Option Codes)
    (parse : Codes → Attempt (TraceFixture F)) (hash : Attempt Codes) (run_id : Codes)
    (validate : Entries F → Attempt Trace) where
  -- A trace made of a half of the fixture for the digest.
  pub record IsReplay (sha256 : Option Codes) (morphs : List Codes) (t : Trace) : Type 0 where
    pub digest : Codes
    pub content : Codes
    pub fixture : TraceFixture F
    pub h : Entries F
    pub identified :
        digest_or_hash is_zero fixtures parse hash run_id validate sha256 ≡ returned digest
    pub found : fixtures digest ≡ some content
    pub parsed : parse content ≡ returned fixture
    pub given : half_of morphs fixture ≢ end
    pub declared :
        IsDeclared is_zero run_id
          (is_synthetic fixture.provenance_kind)
          morphs
          (half_of morphs fixture)
          h
    pub checked : validate h ≡ returned t

  validated-replayed :
      (a : Attempt (Entries F)) {t : Trace}
      → validated is_zero fixtures parse hash run_id validate a ≡ replayed t
      → (h : Entries F) × (a ≡ returned h) × (validate h ≡ returned t)
  validated-replayed (raised why) q = cc
  validated-replayed (returned h) {t} q = (h, refl, go (validate h) q)
    where
      go :
          (r : Attempt Trace)
          → (elim r as (λ _. Replayed Trace) [ raised why ↦ failed why | returned x ↦ replayed x ])
            ≡ replayed t
          → r ≡ returned t
      go (raised why) k = cc
      go (returned x) k = cc

  replay_half-IsDeclared :
      (synthetic : Bool) (morphs : List Codes) (half : Entries F) {t : Trace}
      → replay_half is_zero fixtures parse hash run_id validate synthetic morphs half ≡ replayed t
      → (half ≢ end)
        × (h : Entries F) × IsDeclared is_zero run_id synthetic morphs half h
        × (validate h ≡ returned t)
  unfolding replay_half
  replay_half-IsDeclared synthetic morphs end q = cc
  replay_half-IsDeclared synthetic morphs (entry k v fs) q =
      let (h, made, checked) = validated-replayed _ q in
      (λ e. cc, h, disclose-IsDeclared run_id synthetic morphs _ is_zero made, checked)

  replay_fixture-IsReplay :
      (sha256 : Option Codes) (morphs : List Codes) (digest : Codes) (o : Option Codes) {t : Trace}
      → digest_or_hash is_zero fixtures parse hash run_id validate sha256 ≡ returned digest
      → fixtures digest ≡ o
      → replay_fixture is_zero fixtures parse hash run_id validate morphs o ≡ replayed t
      → IsReplay sha256 morphs t
  replay_fixture-IsReplay sha256 morphs digest none k e q = cc
  replay_fixture-IsReplay sha256 morphs digest (some content) {t} k e q = go (parse content) refl q
    where
      go :
          (r : Attempt (TraceFixture F))
          → parse content ≡ r
          → (elim r as (λ _. Replayed Trace) [
            | raised why ↦ failed why
            | returned fixture ↦
                replay_half is_zero fixtures parse hash run_id validate
                  (is_synthetic fixture.provenance_kind)
                  morphs
                  (half_of morphs fixture)
          ])
            ≡ replayed t
          → IsReplay sha256 morphs t
      go (raised why) e' q' = cc
      go (returned fixture) e' q' =
          let (given, h, declared, checked) = replay_half-IsDeclared _ morphs _ q' in
          record {
            digest = digest;
            content = content;
            fixture = fixture;
            h = h;
            identified = k;
            found = e;
            parsed = e';
            given = given;
            declared = declared;
            checked = checked;
          }

  -- A replayed trace is the checked form of a half of the fixture for the digest, the second one when
  -- there are morphs. Whatever stands there, the half says that it is a replay, which morphs were asked
  -- for and whether it is synthetic; one that is no capture is also partial, and its errors are those of
  -- the fixture with the disclosure at their end.
  pub run_replay-IsReplay :
      (sha256 : Option Codes) (morphs : List Codes) (t : Trace)
      → run_replay is_zero fixtures parse hash run_id validate sha256 morphs ≡ replayed t
      → IsReplay sha256 morphs t
  unfolding run_replay
  run_replay-IsReplay sha256 morphs t q =
      go (digest_or_hash is_zero fixtures parse hash run_id validate sha256) refl q
    where
      go :
          (r : Attempt Codes)
          → digest_or_hash is_zero fixtures parse hash run_id validate sha256 ≡ r
          → (elim r as (λ _. Replayed Trace) [
            | raised why ↦ failed why
            | returned digest ↦
                replay_fixture is_zero fixtures parse hash run_id validate morphs (fixtures digest)
          ])
            ≡ replayed t
          → IsReplay sha256 morphs t
      go (raised why) k q' = cc
      go (returned digest) k q' = replay_fixture-IsReplay sha256 morphs digest _ k refl q'
