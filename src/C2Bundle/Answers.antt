-- ===== src/C2Bundle/Answers.antt =====
-- `C2Bundle.matches` of drishti/contracts/c2_bundle.py: which entry answers a request.
use c_s_cool_stuff.Prelude.{
  ◌≤◌, ◌<◌, ◌≡◌, refl, sym, subst, ap, ◌⊎◌, inl, inr, true, false, ◌&&◌, Option, none, some, List,
  [], ◌∷◌, ◌++◌, length, All, Codes, arith, if-elim,
}
use c_s_cool_stuff.C2Bundle.{C2BundleEntry, C2Bundle, is_longer, answers, matches_after, matches}

module _ (host path : Codes) where
  -- Of the entries that answer, no earlier one has a path prefix as long, and no later one a longer one.
  pub record IsBest (es : List C2BundleEntry) (e : C2BundleEntry) : Type 0 where
    pub earlier : List C2BundleEntry
    pub later : List C2BundleEntry
    pub parts : es ≡ earlier ++ e ∷ later
    pub answering : answers host path e ≡ true
    pub shorter :
        All (λ x. answers host path x ≡ true → length x.path_prefix < length e.path_prefix) earlier
    pub not_longer :
        All (λ x. answers host path x ≡ true → length x.path_prefix ≤ length e.path_prefix) later

  abbrev pub Best : List C2BundleEntry → Option C2BundleEntry → Type 0
  Best es none = All (λ x. answers host path x ≡ false) es
  Best es (some e) = IsBest es e

  -- What the rest of the loop makes of the best entry so far: it stays, or a longer one takes its place.
  abbrev After : Option C2BundleEntry → List C2BundleEntry → Option C2BundleEntry → Type 0
  After none es r = Best es r
  After (some b) es r =
      ((r ≡ some b)
        × All (λ x. answers host path x ≡ true → length x.path_prefix ≤ length b.path_prefix) es)
      ⊎ ((e : C2BundleEntry) × (r ≡ some e)
          × IsBest es e
          × (length b.path_prefix < length e.path_prefix))

  behind :
      (x e : C2BundleEntry) (es : List C2BundleEntry)
      → (answers host path x ≡ true → length x.path_prefix < length e.path_prefix)
      → IsBest es e
      → IsBest (x ∷ es) e
  behind x e es h best = record {
    earlier = x ∷ best.earlier;
    later = best.later;
    parts = ap (λ t. x ∷ t) best.parts;
    answering = best.answering;
    shorter = (h, best.shorter);
    not_longer = best.not_longer;
  }

  first :
      (e : C2BundleEntry) (es : List C2BundleEntry)
      → answers host path e ≡ true
      → All (λ x. answers host path x ≡ true → length x.path_prefix ≤ length e.path_prefix) es
      → IsBest (e ∷ es) e
  first e es a h = record {
    earlier = [];
    later = es;
    parts = refl;
    answering = a;
    shorter = tt;
    not_longer = h;
  }

  taken :
      (best : Option C2BundleEntry) (e : C2BundleEntry) (es : List C2BundleEntry)
      (r : Option C2BundleEntry)
      → (answers host path e && is_longer best e) ≡ true
      → After (some e) es r
      → After best (e ∷ es) r
  taken none e es r h (inl (q, small)) =
      subst (λ t. Best (e ∷ es) t) (sym q) (first e es (ground arith) small)
  taken none e es r h (inr (e', q, best, less)) =
      subst (λ t. Best (e ∷ es) t) (sym q) (behind e e' es (λ a. less) best)
  taken (some b) e es r h (inl (q, small)) =
      inr (e, q, first e es (ground arith) small, ground arith)
  taken (some b) e es r h (inr (e', q, best, less)) =
      inr (e', q, behind e e' es (λ a. less) best, ground arith)

  kept :
      (best : Option C2BundleEntry) (e : C2BundleEntry) (es : List C2BundleEntry)
      (r : Option C2BundleEntry)
      → (answers host path e && is_longer best e) ≡ false
      → After best es r
      → After best (e ∷ es) r
  kept none e es none h all = (ground arith, all)
  kept none e es (some e') h best = behind e e' es (λ a. ground arith) best
  kept (some b) e es r h (inl (q, small)) = inl (q, (λ a. ground arith, small))
  kept (some b) e es r h (inr (e', q, best, less)) =
      inr (e', q, behind e e' es (λ a. ground arith) best, less)

  matches_after-After :
      (best : Option C2BundleEntry) (es : List C2BundleEntry)
      → After best es (matches_after host path best es)
  unfolding matches_after
  matches_after-After none [] = tt
  matches_after-After (some b) [] = inl (refl, tt)
  matches_after-After best (e ∷ es) =
      if-elim (λ b. After best (e ∷ es) (matches_after host path b es))
        (answers host path e && is_longer best e) (some e) best
        (λ h. taken best e es _ h (matches_after-After (some e) es))
        (λ h. kept best e es _ h (matches_after-After best es))

  -- A bundle stays silent exactly on a request that none of its entries answers; otherwise the first of
  -- the entries with the longest path prefix among those that answer does.
  pub matches-Best : (bundle : C2Bundle) → Best bundle.entries (matches bundle host path)
  unfolding matches
  matches-Best bundle = matches_after-After none bundle.entries
