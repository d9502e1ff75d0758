-- ===== src/Crdt/Record/View.antt =====
-- The abstract view of a versioned record: what a replica shows of each field, of the deletion
-- stamp and of the last writer.
use flow_logix.Common.{
  ℕ, ◌≡◌, ◌≤◌, true, none, List, [], ◌∷◌, Text, text_eq, text_eq_iff, arith, ap, lookup, keys,
  contains, contains-keys, inl, inr, Bool-cases, Option-cases,
}
use flow_logix.Crdt.Json.{canonical}
use flow_logix.Crdt.Join.{Stamped}
use flow_logix.Crdt.Record.{
  VersionedRecord, FieldClocks, clock_of, field_of, max_clock, max_field_clock, is_deleted,
}

-- A field: its clock and the text of its value; an absent field has clock 0 and the text of null.
abbrev pub view : VersionedRecord → Text → Stamped
view r key = (clock_of r.clocks key, canonical (field_of r.fields key))

abbrev pub writer : VersionedRecord → Stamped
writer r = (max_field_clock r, r.node_id)

-- No clock stands without its field: the records that `create` and `mutate` write.
abbrev pub IsStamped : VersionedRecord → Type 0
IsStamped r = (key : Text) → lookup key r.fields ≡ none → lookup key r.clocks ≡ none

-- Two replicas show the same record.
pub record SameView (a b : VersionedRecord) : Type 0 where
  pub same_fields : (key : Text) → view a key ≡ view b key
  pub same_deletion : a.deleted_at ≡ b.deleted_at
  pub same_writer : writer a ≡ writer b

module _ (clocks : FieldClocks) where
  le-max_clock_of_contains :
      (key : Text) (ks : List Text)
      → contains key ks ≡ true
      → clock_of clocks key ≤ max_clock clocks ks
  unfolding max_clock
  le-max_clock_of_contains key [] h = absurd (cc)
  le-max_clock_of_contains key (k ∷ ks) h = elim (Bool-cases (text_eq k key)) [
    | inl same ↦
        let e : k ≡ key = (text_eq_iff k key).0 same in omega (arith, ap (λ t. clock_of clocks t) e)
    | inr other ↦ omega (arith, le-max_clock_of_contains key ks (ground arith))
  ]

  pub clock-le-max_clock : (key : Text) → clock_of clocks key ≤ max_clock clocks (keys clocks)
  clock-le-max_clock key = elim (Option-cases (lookup key clocks)) [
    | inl absent ↦ ground (arith)
    | inr (c, found) ↦
        le-max_clock_of_contains key (keys clocks) (ground (arith, contains-keys key clocks))
  ]

  pub max_clock-le :
      (n : ℕ) (ks : List Text) → ((key : Text) → clock_of clocks key ≤ n) → max_clock clocks ks ≤ n
  unfolding max_clock
  max_clock-le n [] h = omega arith
  max_clock-le n (k ∷ ks) h = omega (arith, h k, max_clock-le n ks h)

-- Replicas with the same view agree on whether the record is deleted.
pub is_deleted-eq_of_SameView : (a b : VersionedRecord) → SameView a b → is_deleted a ≡ is_deleted b
unfolding is_deleted
is_deleted-eq_of_SameView a b s = ground (arith, s.same_deletion, ap (λ t. t.0) s.same_writer)
