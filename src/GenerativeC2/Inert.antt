-- ===== src/GenerativeC2/Inert.antt =====
-- What the gate of drishti/m3_dynamic/generative_c2.py promises of a response that it lets pass.
use c_s_cool_stuff.Prelude.{
  ℕ, zero, suc, ◌+◌, ◌≤◌, false, Option, none, some, List, [], Codes, same, ltb, take, ◌≡◌, refl,
  subst, arith, ◌∙◌, if-elim, same_iff,
}
use c_s_cool_stuff.GenerativeC2.{
  Value, null, bool, int, float, text, array, object, other, Values, nil, cons, Entries, end, entry,
  Neutralisation, not_json, not_an_object, max_response_bytes, passed, C2SchemaHint, max_json_depth,
  max_keys,
}
use c_s_cool_stuff.GenerativeC2.Gate.{
  size, put, sanitise, sanitise_items, sanitise_entries, command_keys_of, assert_inert,
}
unfoldable use c_s_cool_stuff.GenerativeC2.Gate.{
  put, sanitise, sanitise_items, sanitise_entries, assert_inert,
}
unfoldable use c_s_cool_stuff.Prelude.{same}
use c_s_cool_stuff.GenerativeC2.Steps.{and_then-passed, guard-passed, refused-passed, passed-value}
use c_s_cool_stuff.GenerativeC2.Unarmed.{EntriesAreUnarmed, sanitise-IsUnarmed}
use c_s_cool_stuff.GenerativeC2.InertText.{IsInertText, sanitise_string-IsInertText}

size-put :
    {F : Type 0} (k : Codes) (v : Value F) (fs : Entries F) → (size (put k v fs) ≤ suc (size fs))
unfolding put
size-put k v end = omega arith
size-put k v (entry j w fs) = ground (arith, size-put k v fs)

module _ (lower : Codes → Codes) where
  shallow : (depth : ℕ) → ltb max_json_depth depth ≡ false → depth ≤ max_json_depth
  shallow depth h = ground arith

  module _ {F : Type 0} (command_keys url_keys : List Codes) where
    abbrev mutual
      -- A response that may be served, at a depth and under a key: no value deeper than 6, at most 40
      -- entries or items, keys of at most 64 characters, and each text inert under the key it had.
      pub IsInert : ℕ → Option Codes → Value F → Type 0
      IsInert depth key (text s) =
          (depth ≤ max_json_depth) × IsInertText lower command_keys url_keys key s
      IsInert depth key (array vs) = (depth ≤ max_json_depth) × AreInert max_keys (suc depth) key vs
      IsInert depth key (object fs) =
          (depth ≤ max_json_depth) × (size fs ≤ max_keys) × EntriesAreInert (suc depth) fs
      IsInert depth key other = ⊥
      IsInert depth key _ = depth ≤ max_json_depth

      pub AreInert : ℕ → ℕ → Option Codes → Values F → Type 0
      AreInert room depth key nil = Unit
      AreInert zero depth key (cons v vs) = ⊥
      AreInert (suc room) depth key (cons v vs) = IsInert depth key v × AreInert room depth key vs

      pub EntriesAreInert : ℕ → Entries F → Type 0
      EntriesAreInert depth end = Unit
      EntriesAreInert depth (entry k v fs) =
          ((full : Codes) × (k ≡ take 64 full) × IsInert depth (some full) v)
          × EntriesAreInert depth fs

    put-Inert :
        (depth : ℕ) (full k : Codes) (v : Value F) (fs : Entries F)
        → k ≡ take 64 full
        → IsInert depth (some full) v
        → EntriesAreInert depth fs
        → EntriesAreInert depth (put k v fs)
    unfolding put
    put-Inert depth full k v end e h g = ((full, e, h), tt)
    put-Inert depth full k v (entry j w fs) e h (p, ps) =
        if-elim (λ gs. EntriesAreInert depth gs) (same j k) _ _
          (λ q. ((full, (same_iff j k).0 q ∙ e, h), ps))
          (λ q. (p, put-Inert depth full k v fs e h ps))

    mutual
      unfolding sanitise sanitise_items sanitise_entries

      sanitise-IsInert :
          (depth : ℕ) (key : Option Codes) (v w : Value F) (ns : List Neutralisation)
          → sanitise lower command_keys url_keys depth key v ≡ passed w ns
          → IsInert depth key w
      sanitise-IsInert depth key null w ns h =
          let (d, e) = guard-passed _ _ _ w ns h in
          subst (IsInert depth key) (passed-value null w [] ns e) (shallow depth d)
      sanitise-IsInert depth key (bool b) w ns h =
          let (d, e) = guard-passed _ _ _ w ns h in
          subst (IsInert depth key) (passed-value (bool b) w [] ns e) (shallow depth d)
      sanitise-IsInert depth key (int n) w ns h =
          let (d, e) = guard-passed _ _ _ w ns h in
          subst (IsInert depth key) (passed-value (int n) w [] ns e) (shallow depth d)
      sanitise-IsInert depth key (float x) w ns h =
          let (d, e) = guard-passed _ _ _ w ns h in
          subst (IsInert depth key) (passed-value (float x) w [] ns e) (shallow depth d)
      sanitise-IsInert depth key (text s) w ns h =
          let (d, e) = guard-passed _ _ _ w ns h in
          let (t, ms, ks, p, q) = and_then-passed _ _ w ns e in
          subst (IsInert depth key) (passed-value (text t) w [] ks q)
            (shallow depth d, sanitise_string-IsInertText lower command_keys url_keys key s t ms p)
      sanitise-IsInert depth key (array vs) w ns h =
          let (d, e) = guard-passed _ _ _ w ns h in
          let (ws, ms, ks, p, q) = and_then-passed _ _ w ns e in
          subst (IsInert depth key) (passed-value (array ws) w [] ks q)
            (shallow depth d, sanitise_items-AreInert max_keys (suc depth) key vs ws ms p)
      sanitise-IsInert depth key (object fs) w ns h =
          let (d, e) = guard-passed _ _ _ w ns h in
          let (c, e2) = guard-passed _ _ _ w ns e in
          let (gs, ms, ks, p, q) = and_then-passed _ _ w ns e2 in
          let (small, good) = sanitise_entries-AreInert (suc depth) fs end gs ms tt p in
          subst (IsInert depth key) (passed-value (object gs) w [] ks q)
            (shallow depth d, ground (arith, small), good)
      sanitise-IsInert depth key other w ns h =
          let (d, e) = guard-passed _ _ _ w ns h in elim (refused-passed not_json w ns e) [ ]

      sanitise_items-AreInert :
          (room depth : ℕ) (key : Option Codes) (vs ws : Values F) (ns : List Neutralisation)
          → sanitise_items lower command_keys url_keys room depth key vs ≡ passed ws ns
          → AreInert room depth key ws
      sanitise_items-AreInert room depth key nil ws ns h =
          subst (AreInert room depth key) (passed-value nil ws [] ns h) tt
      sanitise_items-AreInert zero depth key (cons v vs) ws ns h =
          subst (AreInert zero depth key) (passed-value nil ws [] ns h) tt
      sanitise_items-AreInert (suc room) depth key (cons v vs) ws ns h =
          let (w, ms, ks, p, q) = and_then-passed _ _ ws ns h in
          let (us, ms2, ks2, p2, q2) = and_then-passed _ _ ws ks q in
          subst (AreInert (suc room) depth key) (passed-value (cons w us) ws [] ks2 q2) (
            sanitise-IsInert depth key v w ms p,
            sanitise_items-AreInert room depth key vs us ms2 p2,
          )

      sanitise_entries-AreInert :
          (depth : ℕ) (fs done gs : Entries F) (ns : List Neutralisation)
          → EntriesAreInert depth done
          → sanitise_entries lower command_keys url_keys depth fs done ≡ passed gs ns
          → (size gs ≤ size fs + size done) × EntriesAreInert depth gs
      sanitise_entries-AreInert depth end done gs ns g h =
          subst (λ es. (size es ≤ 0 + size done) × EntriesAreInert depth es)
            (passed-value done gs [] ns h) (omega arith, g)
      sanitise_entries-AreInert depth (entry k v fs) done gs ns g h =
          let (w, ms, ks, p, q) = and_then-passed _ _ gs ns h in
          let (small, good) =
            sanitise_entries-AreInert depth fs (put (take 64 k) w done) gs ks
              (put-Inert depth k (take 64 k) w done refl (sanitise-IsInert depth (some k) v w ms p)
                g)
              q in
          (omega (arith, small, size-put (take 64 k) w done), good)

module _ (lower : Codes → Codes) {F : Type 0} (dumps_length : Value F → ℕ)
    (hint : C2SchemaHint) where
  pub assert_inert-IsInert :
      (v w : Value F) (ns : List Neutralisation)
      → assert_inert lower dumps_length hint v ≡ passed w ns
      → (fs : Entries F) × (v ≡ object fs)
        × (IsInert lower (command_keys_of lower dumps_length hint fs) hint.url_keys 0 none w)
        × (dumps_length w ≤ 4096)
        × EntriesAreUnarmed fs
  unfolding assert_inert
  assert_inert-IsInert (object fs) w ns h =
      let (c, e) = guard-passed _ _ _ w ns h in
      let (u, ms, ks, p, q) = and_then-passed _ _ w ns e in
      let (d, r) = guard-passed _ _ _ w ks q in
      let served = passed-value u w [] ks r in
      let keys = command_keys_of lower dumps_length hint fs in
      (
        fs,
        refl,
        subst (IsInert lower keys hint.url_keys 0 none) served
            (sanitise-IsInert lower keys hint.url_keys 0 none (object fs) u ms p),
        subst (λ x. dumps_length x ≤ 4096) served (small (dumps_length u) d),
        sanitise-IsUnarmed lower keys hint.url_keys 0 none (object fs) u ms p,
      )
    where
      small : (n : ℕ) → ltb max_response_bytes n ≡ false → n ≤ 4096
      small n e = ground arith
  assert_inert-IsInert null w ns h = elim (refused-passed not_an_object w ns h) [ ]
  assert_inert-IsInert (bool b) w ns h = elim (refused-passed not_an_object w ns h) [ ]
  assert_inert-IsInert (int n) w ns h = elim (refused-passed not_an_object w ns h) [ ]
  assert_inert-IsInert (float x) w ns h = elim (refused-passed not_an_object w ns h) [ ]
  assert_inert-IsInert (text s) w ns h = elim (refused-passed not_an_object w ns h) [ ]
  assert_inert-IsInert (array vs) w ns h = elim (refused-passed not_an_object w ns h) [ ]
  assert_inert-IsInert other w ns h = elim (refused-passed not_an_object w ns h) [ ]
