-- ===== src/Sync/Service/Sanitize.antt =====
-- What `sanitizeClientChange` of backend/src/sync/sync.service.ts lets through.
use flow_logix.Common.{
  ℕ, ◌≡◌, ◌∙◌, true, Option, none, some, List, [], Text, codes, text_eq, if◌then◌else◌, is_some,
  ◌&&◌, for_each, cmp, lookup, contains, or_else, lookup-put, lookup-for_each_given, arith,
  Option-cases, inl, inr,
}
use flow_logix.Crdt.Json.{Json, string}
use flow_logix.Crdt.Record.{Fields, FieldClocks, field_of}
use flow_logix.Ordering.Indexer.{Indexer}
use flow_logix.Ordering.Position.{is_valid}
use flow_logix.Sync.Store.{EntityManager}
use flow_logix.Sync.Requests.{numeric_clocks, numeric_clock, number_of, text_of}
use flow_logix.Sync.Service.{admitted, sanitize_field, Sanitized, sanitize_client_change}

numeric_clock-put :
    (source : Fields) (out : FieldClocks) (k j : Text)
    → lookup j (numeric_clock source out k)
      ≡ or_else (if text_eq k j then number_of (field_of source k) else none) (lookup j out)
numeric_clock-put source out k j = elim (Option-cases (number_of (field_of source k))) [
  | inl e ↦ ground arith
  | inr (n, e) ↦ ground (arith, lookup-put k j n out)
]

-- The finite numbers of the given fields, and no other clock.
pub lookup-numeric_clocks :
    (source : Fields) (fields : List Text) (f : Text)
    → lookup f (numeric_clocks source fields)
      ≡ (if contains f fields then number_of (field_of source f) else none)
unfolding numeric_clocks
lookup-numeric_clocks source fields f =
    lookup-for_each_given (λ out. out) (numeric_clock source) (λ k. number_of (field_of source k))
      (λ out k j. numeric_clock-put source out k j) f [] fields
    ∙ ground arith

module _ {Db : Type 0} (manager : EntityManager Db) (positions : Indexer) (org : Text) (db : Db)
    (source : Fields) where
  -- What is kept under a key.
  abbrev pub kept : Text → Option Json
  kept f = elim (lookup f source) [
    | none ↦ none
    | some value ↦ admitted manager positions org db f value
  ]

  module _ (raw : FieldClocks) where
    abbrev step : Sanitized → Text → Sanitized
    step = sanitize_field manager positions org db source raw

    abbrev pub kept_clock : Text → Option ℕ
    kept_clock f = elim (kept f) [ none ↦ none | some value ↦ lookup f raw ]

    field-put :
        (s : Sanitized) (k j : Text)
        → lookup j (step s k).fields
          ≡ or_else (if text_eq k j then kept k else none) (lookup j s.fields)
    unfolding sanitize_field
    field-put s k j = elim (Option-cases (kept k)) [
      | inl e ↦ ground (arith)
      | inr (v, e) ↦ ground (arith, lookup-put k j v s.fields)
    ]

    clock-put :
        (s : Sanitized) (k j : Text)
        → lookup j (step s k).clocks
          ≡ or_else (if text_eq k j then kept_clock k else none) (lookup j s.clocks)
    unfolding sanitize_field
    clock-put s k j = elim (Option-cases (lookup k raw)) [
      | inl e ↦ ground (arith)
      | inr (n, e) ↦ ground (arith, lookup-put k j n s.clocks)
    ]

    abbrev clean : List Text → Sanitized
    clean fields = for_each step (record { fields = []; clocks = [] }) fields

    pub lookup-clean :
        (fields : List Text) (f : Text)
        → (lookup f (clean fields).fields ≡ (if contains f fields then kept f else none))
          × (lookup f (clean fields).clocks ≡ (if contains f fields then kept_clock f else none))
    lookup-clean fields f = (
      lookup-for_each_given (λ s. s.fields) step kept field-put f _ fields ∙ ground arith,
      lookup-for_each_given (λ s. s.clocks) step kept_clock clock-put f _ fields ∙ ground arith,
    )

  -- A change's fields and clocks after the check, key by key.
  pub sanitized :
      (fields : List Text) (clocks : Fields) (f : Text)
      → let clean = sanitize_client_change manager positions org db fields source clocks in
        (lookup f clean.fields ≡ (if contains f fields then kept f else none))
        × (lookup f clean.clocks ≡ (
            if contains f fields && is_some (kept f) then number_of (field_of clocks f) else none))
  unfolding sanitize_client_change
  sanitized fields clocks f =
      let (here, there) = lookup-clean (numeric_clocks clocks fields) fields f in
      (here, there ∙ ground (arith, lookup-numeric_clocks clocks fields f))

  -- A value that is kept is a well-formed position, an own list or an own board under those names.
  pub kept-position :
      (v : Json)
      → kept (codes "positionIdx") ≡ some v
      → (key : Text) × (v ≡ string key) × (is_valid positions key ≡ true)
  unfolding admitted cmp
  kept-position v h = elim (Option-cases (lookup (codes "positionIdx") source)) [
    | inl e ↦ absurd (ground arith)
    | inr (value, e) ↦ elim (Option-cases (text_of value)) [
      | inl f ↦ absurd (ground arith)
      | inr (key, f) ↦ (key, ground arith, ground arith)
    ]
  ]
