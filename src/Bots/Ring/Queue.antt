-- ===== src/Bots/Ring/Queue.antt =====
-- An `OrderRing` is a queue of at most `cap` entries, and `push` drops the front of a full queue.
use native.Mathlib.Nat.{mod-eq_of_lt, mod_self, mod-lt}
use vidhi_trading_platform.Prelude.{
  true, false, ℕ, zero, suc, ◌+◌, ◌%◌, ◌==◌, ◌<◌, ◌≤◌, ◌≡◌, refl, inl, inr, List, [], ◌∷◌, ◌++◌,
  Option, none, some, arith, ℤ, length, length-set, set, take, drop, if◌then◌else◌, ltb, ap, sym,
  ◌∙◌, Bool-cases, ltb→lt, ◌⊎◌,
}
use mathlib.Core.List.{append-nil, append_assoc}
use mathlib.Core.Path.{ap₂}
use native.Mathlib.Numerals.{add-one}
use vidhi_trading_platform.Bots.Ring.{Entry, OrderRing, push, slot}

-- The slots in use, oldest first.
unfoldable pub queue : OrderRing → List (Option Entry)
queue r = if ltb r.count r.cap then take r.count r.ids else drop r.head r.ids ++ take r.head r.ids

pub record IsRing (r : OrderRing) : Type 0 where
  pub slots : length r.ids ≡ r.cap
  pub count_le : r.count ≤ r.cap
  pub head_lt : r.head < r.cap
  pub filling : r.count < r.cap → r.head ≡ r.count

-- What a full queue gives up, and what it keeps.
abbrev pub front : List (Option Entry) → Option Entry
front [] = none
front (o ∷ os) = o

take-set :
    (n : ℕ) (xs : List (Option Entry)) (x : Option Entry)
    → n < length xs
    → take (suc n) (set xs n x) ≡ take n xs ++ (x ∷ [])
take-set zero [] x h = elim h [ ]
take-set (suc n) [] x h = elim h [ ]
take-set zero (y ∷ ys) x h = refl
take-set (suc n) (y ∷ ys) x h = ap (◌∷◌ y) (take-set n ys x (omega arith))

drop-set :
    (n : ℕ) (xs : List (Option Entry)) (x : Option Entry)
    → drop (suc n) (set xs n x) ≡ drop (suc n) xs
drop-set zero [] x = refl
drop-set (suc n) [] x = refl
drop-set zero (y ∷ ys) x = refl
drop-set (suc n) (y ∷ ys) x = drop-set n ys x

drop-slot :
    (n : ℕ) (xs : List (Option Entry)) → n < length xs → drop n xs ≡ slot xs n ∷ drop (suc n) xs
drop-slot zero [] h = elim h [ ]
drop-slot (suc n) [] h = elim h [ ]
drop-slot zero (y ∷ ys) h = refl
drop-slot (suc n) (y ∷ ys) h = drop-slot n ys (omega arith)

take-all : (n : ℕ) (xs : List (Option Entry)) → length xs ≤ n → take n xs ≡ xs
take-all zero [] h = refl
take-all (suc n) [] h = refl
take-all zero (x ∷ xs) h = elim h [ ]
take-all (suc n) (x ∷ xs) h = ap (◌∷◌ x) (take-all n xs (omega arith))

drop-all : (n : ℕ) (xs : List (Option Entry)) → length xs ≤ n → drop n xs ≡ []
drop-all zero [] h = refl
drop-all (suc n) [] h = refl
drop-all zero (x ∷ xs) h = elim h [ ]
drop-all (suc n) (x ∷ xs) h = drop-all n xs (omega arith)

-- The head moves on by one, and round at the end.
next_head :
    (h cap : ℕ)
    → h < cap
    → (((h + 1) % cap ≡ h + 1) × (h + 1 < cap)) ⊎ (((h + 1) % cap ≡ 0) × (h + 1 ≡ cap))
next_head h cap l = elim (Bool-cases (ltb (h + 1) cap)) [
  | inl e ↦ inl (mod-eq_of_lt (ltb→lt (h + 1) cap e), ltb→lt (h + 1) cap e)
  | inr e ↦ let q : h + 1 ≡ cap = ground arith in inr (rw q (mod_self cap), q)
]

queue_filling : (r : OrderRing) → r.count < r.cap → queue r ≡ take r.count r.ids
unfolding queue
queue_filling r h = ground arith

queue_full : (r : OrderRing) → r.count ≡ r.cap → queue r ≡ drop r.head r.ids ++ take r.head r.ids
unfolding queue
queue_full r h = ground arith

-- Writing the last slot completes the list.
set_last :
    (h : ℕ) (xs : List (Option Entry)) (x : Option Entry)
    → suc h ≡ length xs
    → set xs h x ≡ take h xs ++ (x ∷ [])
set_last h xs x e =
    sym (take-all (suc h) (set xs h x) (omega (arith, length-set xs h x)))
    ∙ take-set h xs x (omega arith)

-- The ring after a push, with its counts worked out.
pushed : ℕ → ℤ → ℕ → OrderRing → OrderRing
pushed i price count r = record {
  ids = set r.ids r.head (some (record { id = i; price = price }));
  head = (r.head + 1) % r.cap;
  count = count;
  cap = r.cap;
}

push_filling_lem :
    (i : ℕ) (price : ℤ) (r : OrderRing)
    → r.count < r.cap
    → push i price r ≡ (none, pushed i price (r.count + 1) r)
unfolding push pushed
push_filling_lem i price r h = let e : (r.count == r.cap) ≡ false = ground arith in rw e

push_full_lem :
    (i : ℕ) (price : ℤ) (r : OrderRing)
    → r.count ≡ r.cap
    → push i price r ≡ (slot r.ids r.head, pushed i price r.count r)
unfolding push pushed
push_full_lem i price r h = let e : (r.count == r.cap) ≡ true = ground arith in rw e

-- The slots in use after a write at the head, with the head moved on.
advance :
    (h cap : ℕ) (xs : List (Option Entry)) (x : Option Entry)
    → h < cap
    → length xs ≡ cap
    → drop ((h + 1) % cap) (set xs h x) ++ take ((h + 1) % cap) (set xs h x)
      ≡ drop (suc h) xs ++ (take h xs ++ (x ∷ []))
advance h cap xs x l n = elim (next_head h cap l) [
  | inl (e, more) ↦ rw (e, add-one) (ap₂ ◌++◌ (drop-set h xs x) (take-set h xs x (omega arith)))
  | inr (e, last) ↦
      rw (e, drop-all (suc h) xs (omega arith))
        (append-nil (set xs h x) ∙ set_last h xs x (omega arith))
]

pushed-IsRing :
    (i : ℕ) (price : ℤ) (count : ℕ) (r : OrderRing)
    → IsRing r
    → count ≤ r.cap
    → (count < r.cap → r.head + 1 ≡ count)
    → IsRing (pushed i price count r)
unfolding pushed
pushed-IsRing i price count r v c f = record {
  slots = length-set r.ids r.head (some (record { id = i; price = price })) ∙ v.slots;
  count_le = c;
  head_lt = mod-lt (r.head + 1) (omega (arith, v.head_lt));
  filling = λ less. mod-eq_of_lt (omega (arith, f less)) ∙ f less;
}

filling_back :
    (i : ℕ) (price : ℤ) (r : OrderRing)
    → IsRing r
    → r.count < r.cap
    → queue (pushed i price (r.count + 1) r)
      ≡ take r.head r.ids ++ (some (record { id = i; price = price }) ∷ [])
unfolding pushed
filling_back i price r v h =
    let x : Option Entry = some (record { id = i; price = price }) in
    let r' = pushed i price (r.count + 1) r in
    let at : r.head ≡ r.count = v.filling h in
    elim (Bool-cases (ltb (r.count + 1) r.cap)) [
      | inl less ↦
          rw (queue_filling r' (ltb→lt (r.count + 1) r.cap less), ← at, add-one)
            (take-set r.head r.ids x (omega (arith, v.head_lt, v.slots)))
      | inr not_less ↦
          let last : r.count + 1 ≡ r.cap = ground arith in
          rw (queue_full r' last) (
            advance r.head r.cap r.ids x v.head_lt v.slots
            ∙ ap (λ d. d ++ (take r.head r.ids ++ (x ∷ [])))
                (drop-all (suc r.head) r.ids (omega (arith, v.slots))))
    ]

-- A push on a ring that is not full evicts nothing and adds the entry at the back of the queue.
pub push_filling :
    (i : ℕ) (price : ℤ) (r : OrderRing)
    → IsRing r
    → r.count < r.cap
    → let (evicted, r') = push i price r in
      IsRing r'
      × (queue r' ≡ queue r ++ (some (record { id = i; price = price }) ∷ []))
      × (evicted ≡ none)
push_filling i price r v h =
    let at : r.head ≡ r.count = v.filling h in
    rw (push_filling_lem i price r h) (
      pushed-IsRing i price (r.count + 1) r v (omega arith) (λ less. ap (λ (n : ℕ). n + 1) at),
      filling_back i price r v h
          ∙ ap (λ q. q ++ (some (record { id = i; price = price }) ∷ []))
              (ap (λ n. take n r.ids) at ∙ sym (queue_filling r h)),
      refl,
    )

-- A push on a full ring evicts the front of the queue and adds the entry at the back.
push_full :
    (i : ℕ) (price : ℤ) (r : OrderRing)
    → IsRing r
    → r.count ≡ r.cap
    → let (evicted, r') = push i price r in
      IsRing r'
      × (queue r' ≡ drop 1 (queue r) ++ (some (record { id = i; price = price }) ∷ []))
      × (evicted ≡ front (queue r))
unfolding pushed
push_full i price r v h =
    let x : Option Entry = some (record { id = i; price = price }) in
    let r' = pushed i price r.count r in
    let oldest = drop-slot r.head r.ids (omega (arith, v.head_lt, v.slots)) in
    rw (push_full_lem i price r h, queue_full r h, oldest)
      (
        pushed-IsRing i price r.count r v (omega arith) (λ less. absurd (omega arith)),
        queue_full r' h
            ∙ advance r.head r.cap r.ids x v.head_lt v.slots
            ∙ sym (append_assoc (drop (suc r.head) r.ids) (take r.head r.ids) (x ∷ [])),
        refl,
      )
