-- ===== src/Crdt/Register.antt =====
-- mobile/src/crdt/lwwRegister.ts and the register and outcome types of mobile/src/crdt/types.ts.
use flow_logix.Common.{
  ℕ, ◌≡◌, ◌≢◌, ◌↔◌, Bool, true, Text, cmp-swap, cmp-lt_trans, eq_of_cmp, text_eq, text_lt, arith,
  ltb, ◌==◌, not, Bool-cases, inl, inr, if◌then◌else◌,
}

pub record LwwRegister {ℓ} (T : Type ℓ) : Type ℓ where
  pub value : T
  pub updated_at : ℕ
  pub node_id : Text

pub data MergeOutcome : Type 0 where
  local remote equal : MergeOutcome

module _ {ℓ} {T : Type ℓ} where
  -- Helper `pickLater`: `true` is 1, "a is newer", and `false` is -1.
  pick_later : LwwRegister T → LwwRegister T → Bool
  pick_later a b =
      if not (a.updated_at == b.updated_at)
      then ltb b.updated_at a.updated_at
      else (if not (text_eq a.node_id b.node_id) then text_lt b.node_id a.node_id else true)

  pub merge_register : LwwRegister T → LwwRegister T → LwwRegister T
  unfolding pick_later
  merge_register a b = if pick_later a b then a else b

  pub register_wins : LwwRegister T → LwwRegister T → Bool
  unfolding pick_later
  register_wins a b = pick_later a b

pub compare_stamps : ℕ → Text → ℕ → Text → MergeOutcome
compare_stamps a_clock a_node b_clock b_node =
    if not (a_clock == b_clock)
    then (if ltb b_clock a_clock then local else remote)
    else (if not (text_eq a_node b_node)
        then (if text_lt b_node a_node then local else remote)
        else equal)

module _ {ℓ} {T : Type ℓ} where
  -- Registers written by one node at one time are the same write.
  abbrev pub SameWrite : LwwRegister T → LwwRegister T → Type ℓ
  SameWrite a b = a.updated_at ≡ b.updated_at → a.node_id ≡ b.node_id → a ≡ b

  merge_register_comm :
      (a b : LwwRegister T) → SameWrite a b → merge_register a b ≡ merge_register b a
  unfolding merge_register
  merge_register_comm a b same = elim (Bool-cases (a.updated_at == b.updated_at)) [
    | inr apart ↦ ground arith
    | inl level ↦ elim (Bool-cases (text_eq a.node_id b.node_id)) [
      | inr apart ↦ ground (arith, cmp-swap a.node_id b.node_id)
      | inl alike ↦ ground (
        arith,
        same (ground arith) (eq_of_cmp a.node_id b.node_id (ground arith)),
        cmp-swap a.node_id b.node_id,
      )
    ]
  ]

  merge_register_assoc :
      (a b c : LwwRegister T)
      → merge_register (merge_register a b) c ≡ merge_register a (merge_register b c)
  unfolding merge_register
  merge_register_assoc a b c = ground (
    arith,
    cmp-swap a.node_id b.node_id,
    cmp-swap b.node_id c.node_id,
    cmp-swap a.node_id c.node_id,
    cmp-lt_trans a.node_id b.node_id c.node_id,
    cmp-lt_trans c.node_id b.node_id a.node_id,
    eq_of_cmp a.node_id b.node_id,
    eq_of_cmp b.node_id c.node_id,
    eq_of_cmp a.node_id c.node_id,
  )

  -- Replicas converge on registers: the order of two registers does not matter if the same stamp
  -- and node mean the same write, the grouping of three never matters, and a register wins over
  -- another by `registerWins` exactly when `compareStamps` does not answer 'remote'.
  pub merge_register-converges :
      (a b c : LwwRegister T)
      → SameWrite a b
      → (merge_register a b ≡ merge_register b a)
        × (merge_register (merge_register a b) c ≡ merge_register a (merge_register b c))
        × ((register_wins a b ≡ true)
            ↔ (compare_stamps a.updated_at a.node_id b.updated_at b.node_id ≢ remote))
  unfolding register_wins compare_stamps
  merge_register-converges a b c same = (
    merge_register_comm a b same,
    merge_register_assoc a b c,
    (
      λ h. ground (arith, cmp-swap a.node_id b.node_id),
      λ h. ground (arith, cmp-swap a.node_id b.node_id),
    ),
  )
