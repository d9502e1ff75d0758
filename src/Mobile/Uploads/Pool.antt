-- ===== src/Mobile/Uploads/Pool.antt =====
-- The worker pool of one pass (mobile/src/attachments/AttachmentUploadQueue.ts, `drainOnce`).
use flow_logix.Common.{
  ℕ, zero, suc, ◌≡◌, ◌≤◌, ◌+◌, refl, sym, ap, subst, true, false, some, List, [], ◌∷◌, Text,
  contains, distinct, length, arith, inl, inr, Bool-cases, Option-cases, max, text_eq_iff,
}
use flow_logix.Board.State.{without}
use flow_logix.Mobile.Uploads.{
  AttachmentUpload, Config, Pass, worker_count, start_pass, claim_next, claim, release,
}

-- The steps of a pass: a worker claims a record, or is done with the one that it held.
pub data Working : Pass → Pass → Type 0 where
  claims : (r : AttachmentUpload) {p q : Pass} → claim p ≡ some (r, q) → Working p q
  releases : (id : Text) {p : Pass} → contains id p.in_flight ≡ true → Working p (release id p)

pub data Works : Pass → Pass → Type 0 where
  begun : {p : Pass} → Works p p
  goes_on : {p q r : Pass} → Works p q → Working q r → Works p r

-- No record is held by two workers, and each of `n` workers holds one record or none.
pub record IsPool (n : ℕ) (p : Pass) : Type 0 where
  pub apart : distinct p.in_flight ≡ true
  pub all_workers : p.idle + length p.in_flight ≡ n

length-without_absent : (x : Text) (ys : List Text) → contains x ys ≡ false → without x ys ≡ ys
length-without_absent x [] h = refl
length-without_absent x (y ∷ ys) h = ground (arith, length-without_absent x ys)

length-without :
    (x : Text) (ys : List Text)
    → contains x ys ≡ true
    → distinct ys ≡ true
    → suc (length (without x ys)) ≡ length ys
length-without x [] h d = absurd (cc)
length-without x (y ∷ ys) h d = ground (
  arith,
  length-without x ys,
  ap length (length-without_absent y ys (ground arith)),
  ap (λ z. length (without z ys)),
  text_eq_iff y x,
)

contains-without :
    (z x : Text) (ys : List Text) → contains z ys ≡ false → contains z (without x ys) ≡ false
contains-without z x [] h = refl
contains-without z x (y ∷ ys) h = ground (arith, contains-without z x ys)

distinct-without : (x : Text) (ys : List Text) → distinct ys ≡ true → distinct (without x ys) ≡ true
distinct-without x [] d = refl
distinct-without x (y ∷ ys) d = ground (arith, distinct-without x ys, contains-without y x ys)

claim_next-free :
    (held : List Text) (rs : List AttachmentUpload) (r : AttachmentUpload)
    (rest : List AttachmentUpload)
    → claim_next held rs ≡ some (r, rest)
    → contains r.input.id held ≡ false
unfolding claim_next
claim_next-free held [] r rest h = absurd (cc)
claim_next-free held (q ∷ rs) r rest h = elim (Bool-cases (contains q.input.id held)) [
  | inl taken ↦ claim_next-free held rs r rest (ground arith)
  | inr free ↦ let e : q ≡ r = ground arith in subst (λ t. contains t.input.id held ≡ false) e free
]

claimed :
    (p q : Pass) (r : AttachmentUpload)
    → claim p ≡ some (r, q)
    → (n : ℕ) × (rest : List AttachmentUpload) × (p.idle ≡ suc n)
      × (q ≡ record { unclaimed = rest; in_flight = r.input.id ∷ p.in_flight; idle = n })
      × (contains r.input.id p.in_flight ≡ false)
unfolding claim
claimed p q r e = by_idle p.idle refl
  where
    by_idle :
        (n : ℕ)
        → p.idle ≡ n
        → (n : ℕ) × (rest : List AttachmentUpload) × (p.idle ≡ suc n)
          × (q ≡ record { unclaimed = rest; in_flight = r.input.id ∷ p.in_flight; idle = n })
          × (contains r.input.id p.in_flight ≡ false)
    by_idle zero i = absurd (ground arith)
    by_idle (suc n) i = elim (Option-cases (claim_next p.in_flight p.unclaimed)) [
      | inl over ↦ absurd (ground arith)
      | inr ((r', rest), found) ↦
          let one : r' ≡ r = ground arith in
          (
            n,
            rest,
            i,
            ground arith,
            subst (λ t. contains t.input.id p.in_flight ≡ false) one
                (claim_next-free p.in_flight p.unclaimed r' rest found),
          )
    ]

claims-IsPool :
    (n : ℕ) (p q : Pass) (r : AttachmentUpload) → claim p ≡ some (r, q) → IsPool n p → IsPool n q
claims-IsPool n p q r e h =
    let (k, rest, i, same, free) = claimed p q r e in
    subst (IsPool n) (sym same) (record {
      apart = ground (arith, h.apart, free);
      all_workers = omega (arith, h.all_workers, i);
    })

Working-IsPool : (n : ℕ) {p q : Pass} → Working p q → IsPool n p → IsPool n q
unfolding release
Working-IsPool n (claims r {p} {q} e) h = claims-IsPool n p q r e h
Working-IsPool n (releases id {p} held) h = record {
  apart = distinct-without id p.in_flight h.apart;
  all_workers = omega (arith, h.all_workers, length-without id p.in_flight held h.apart);
}

Works-IsPool : (n : ℕ) {p q : Pass} → Works p q → IsPool n p → IsPool n q
Works-IsPool n begun h = h
Works-IsPool n (goes_on first last) h = Working-IsPool n last (Works-IsPool n first h)

-- In a pass over any runnable records, in whatever order the workers claim records and finish with
-- them, no record is ever held by two workers, and no more than the configured number are in
-- flight, or one if that is 0.
pub pass-apart :
    (cfg : Config) (runnable : List AttachmentUpload) (q : Pass)
    → Works (start_pass cfg runnable) q
    → (distinct q.in_flight ≡ true) × (length q.in_flight ≤ max 1 cfg.max_concurrent)
unfolding start_pass worker_count
pass-apart cfg runnable q w =
    let h : IsPool (worker_count cfg runnable) q =
      Works-IsPool (worker_count cfg runnable) w
        (record { apart = refl; all_workers = omega arith }) in
    (h.apart, omega (arith, h.all_workers))
