-- ===== src/Bots/Ring.antt =====
-- `class OrderRing`: a ring of fixed capacity that evicts its oldest entry when full.
pub mod Queue
use vidhi_trading_platform.Prelude.{
  ℕ, ◌+◌, ◌%◌, ◌==◌, List, Option, none, some, ℤ, get_elem?, set, replicate, if◌then◌else◌,
}

pub record Entry : Type 0 where
  pub id : ℕ
  pub price : ℤ

-- A slot is `none` while it is `null`.
pub record OrderRing : Type 0 where
  pub ids : List (Option Entry)
  pub head : ℕ
  pub count : ℕ
  pub cap : ℕ

-- The constructor.
unfoldable pub new_ring : ℕ → OrderRing
new_ring capacity = record { ids = replicate capacity none; head = 0; count = 0; cap = capacity }

-- `this.ids[i]`, with `none` for `null` and for no slot.
abbrev pub slot : List (Option Entry) → ℕ → Option Entry
slot ids i = elim (get_elem? ids i) [ none ↦ none | some o ↦ o ]

-- `push`: the evicted entry and the ring.
unfoldable pub push : ℕ → ℤ → OrderRing → Option Entry × OrderRing
push i price r =
    let full = r.count == r.cap in
    (
      if full then slot r.ids r.head else none,
      record {
        ids = set r.ids r.head (some (record { id = i; price = price }));
        head = (r.head + 1) % r.cap;
        count = if full then r.count else r.count + 1;
        cap = r.cap;
      },
    )
