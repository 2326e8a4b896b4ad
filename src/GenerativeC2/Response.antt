-- ===== src/GenerativeC2/Response.antt =====
-- `synthesise_response` of drishti/m3_dynamic/generative_c2.py, from the values that `_ask_model` gives
-- on: the shapes, the gate, and the fall back. The model's call, the ledger and the log are left out.
use c_s_cool_stuff.Prelude.{
  ℕ, ◌≤◌, ℤ, pos, negsuc, true, false, Option, none, some, List, [], Codes, codes, leb, take,
  if◌then◌else◌, ◌≡◌, refl, ◌⊎◌, inl, inr, subst,
}
use c_s_cool_stuff.GenerativeC2.{
  Value, bool, int, text, object, Entries, end, entry, Neutralisation, Refusal, Gated, refused,
  passed, C2SchemaHint, C2ResponseKind, sinkhole_url, noop,
}
use c_s_cool_stuff.GenerativeC2.Gate.{assert_inert, command_keys_of}
use c_s_cool_stuff.GenerativeC2.Inert.{IsInert, assert_inert-IsInert}

-- The values proposed: `interval` and `id`.
pub record Proposed : Type 0 where
  pub interval : Option ℤ
  pub id : Option Codes

-- `_bounded_int(value, default=3600, lo=1, hi=86_400)`
unfoldable pub bounded_int : Option ℤ → ℕ
bounded_int none = 3600
bounded_int (some (negsuc n)) = 1
bounded_int (some (pos n)) = if leb n 0 then 1 else if leb 86400 n then 86400 else n

-- `fields.get("id") or "0000"`
unfoldable pub id_or_zeros : Option Codes → Codes
id_or_zeros none = codes "0000"
id_or_zeros (some []) = codes "0000"
id_or_zeros (some s) = s

module _ {F : Type 0} where
  abbrev pub status_ok : Entries F → Entries F
  status_ok rest = entry (codes "status") (text (codes "ok")) rest

  -- `_template`
  unfoldable pub template : C2ResponseKind → Proposed → Entries F
  template C2ResponseKind.connectivity_ok fields = status_ok end
  template C2ResponseKind.registration_ack fields = status_ok (
      entry (codes "id") (text (take 32 (id_or_zeros fields.id)))
        (entry (codes "registered") (bool true) end))
  template C2ResponseKind.command_poll fields = status_ok (
      entry (codes "cmd") (text noop)
        (entry (codes "interval") (int (pos (bounded_int fields.interval))) end))
  template C2ResponseKind.config fields =
      status_ok (entry (codes "config") (object (entry (codes "enabled") (bool false) end)) end)
  template C2ResponseKind.inert_payload_stub fields =
      status_ok (entry (codes "url") (text sinkhole_url) (entry (codes "size") (int (pos 0)) end))

-- What is served, and why the gate refused, if it did.
pub record Served (F : Type 0) : Type 0 where
  pub body : Value F
  pub kind : C2ResponseKind
  pub neutralisations : List Neutralisation
  pub fell_back : Option Refusal

module _ (lower : Codes → Codes) {F : Type 0} (dumps_length : Value F → ℕ) where
  unfoldable pub serve : C2ResponseKind → Gated (Value F) → Served F
  serve kind (passed body ns) = record {
    body = body;
    kind = kind;
    neutralisations = ns;
    fell_back = none;
  }
  serve kind (refused r) = record {
    body = object (status_ok end);
    kind = C2ResponseKind.connectivity_ok;
    neutralisations = [];
    fell_back = some r;
  }

  -- `synthesise_response`
  unfoldable pub synthesise_response : C2SchemaHint → Proposed → Served F
  unfolding serve
  synthesise_response hint proposed =
      serve hint.response_kind
        (assert_inert lower dumps_length hint (object (template hint.response_kind proposed)))

  pub synthesise_response-IsInert :
      (hint : C2SchemaHint) (proposed : Proposed)
      → let served = synthesise_response hint proposed in
        ((r : Refusal) × (served.fell_back ≡ some r)
          × (served.kind ≡ C2ResponseKind.connectivity_ok)
          × (served.body ≡ object (status_ok end)))
        ⊎ ((served.fell_back ≡ none)
            × (served.kind ≡ hint.response_kind)
            × IsInert lower
                (command_keys_of lower dumps_length hint (template hint.response_kind proposed))
                hint.url_keys
                0
                none
                served.body
            × (dumps_length served.body ≤ 4096))
  unfolding synthesise_response serve
  synthesise_response-IsInert hint proposed =
      go (assert_inert lower dumps_length hint (object shape)) refl
    where
      shape : Entries F
      shape = template hint.response_kind proposed

      go :
          (g : Gated (Value F))
          → assert_inert lower dumps_length hint (object shape) ≡ g
          → let served = serve hint.response_kind g in
            ((r : Refusal) × (served.fell_back ≡ some r)
              × (served.kind ≡ C2ResponseKind.connectivity_ok)
              × (served.body ≡ object (status_ok end)))
            ⊎ ((served.fell_back ≡ none)
                × (served.kind ≡ hint.response_kind)
                × IsInert lower
                    (command_keys_of lower dumps_length hint shape)
                    hint.url_keys
                    0
                    none
                    served.body
                × (dumps_length served.body ≤ 4096))
      go (refused r) h = inl (r, refl, refl, refl)
      go (passed body ns) h =
          let (fs, e, inert, small, unarmed) =
            assert_inert-IsInert lower dumps_length hint (object shape) body ns h in
          inr (
            refl,
            refl,
            subst
                (λ es.
                  IsInert lower (command_keys_of lower dumps_length hint es) hint.url_keys 0 none
                    body)
                (object-injective e) inert,
            small,
          )
        where
          object-injective : {fs gs : Entries F} → object gs ≡ object fs → fs ≡ gs
          object-injective e = cc
