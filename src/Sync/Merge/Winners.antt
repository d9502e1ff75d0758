-- ===== src/Sync/Merge/Winners.antt =====
-- The fields of a merged row: backend/src/sync/sync-merge.ts.
use flow_logix.Common.{
  ◌≡◌, refl, ◌∙◌, ◌⊎◌, inl, inr, none, some, [], Text, lookup, put, contains, keys, add_all,
  contains-keys, contains-add_all, lookup-for_each, Bool-cases, arith, if◌then◌else◌,
}
use flow_logix.Crdt.Json.{Json}
use flow_logix.Crdt.Record.{field_of}
use flow_logix.Sync.Merge.{
  RecordState, FieldWinner, server, client, equal, Merging, nothing_merged, winner_of, merge_key,
  all_keys, merge_keys, merge_server_record,
}

abbrev of_winner : FieldWinner → Json → Json → Json
of_winner client s c = c
of_winner w s c = s

one_of : (w : FieldWinner) (s c : Json) → (of_winner w s c ≡ s) ⊎ (of_winner w s c ≡ c)
one_of server s c = inl refl
one_of equal s c = inl refl
one_of client s c = inr refl

module _ (s c : RecordState) where
  -- The value that wins under a key.
  abbrev winning : Text → Json
  winning key = of_winner (winner_of s c key) (field_of s.fields key) (field_of c.fields key)

  merge_key-put :
      (m : Merging) (key : Text) → (merge_key s c m key).fields ≡ put key (winning key) m.fields
  unfolding merge_key
  merge_key-put m key = ground arith

  winning-either :
      (key : Text) → (winning key ≡ field_of s.fields key) ⊎ (winning key ≡ field_of c.fields key)
  winning-either key = one_of (winner_of s c key) (field_of s.fields key) (field_of c.fields key)

  field-merged :
      (key : Text)
      → lookup key (merge_server_record s c).merged.fields
        ≡ (if contains key (all_keys s c) then some (winning key) else none)
  unfolding merge_server_record merge_keys
  field-merged key =
      lookup-for_each (λ m. m.fields) (merge_key s c) winning merge_key-put key nothing_merged
        (all_keys s c)
      ∙ ground arith

  -- A merged row's field is the server's or the client's.
  pub merged-field :
      (key : Text)
      → let merged = (merge_server_record s c).merged in
        (field_of merged.fields key ≡ field_of s.fields key)
        ⊎ (field_of merged.fields key ≡ field_of c.fields key)
  merged-field key = elim (Bool-cases (contains key (all_keys s c))) [
    | inl there ↦ elim (winning-either key) [
      | inl e ↦ inl (ground (arith, field-merged key))
      | inr e ↦ inr (ground (arith, field-merged key))
    ]
    | inr absent ↦ inl (
        ground (
          arith,
          field-merged key,
          contains-add_all key (add_all [] (keys s.fields)) (keys c.fields),
          contains-add_all key [] (keys s.fields),
          contains-keys key s.fields,
        ))
  ]
