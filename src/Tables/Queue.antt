-- ===== src/Tables/Queue.antt =====
-- `Queue<T, N>` of src/tables.rs: a FIFO ring of optional entries that drops the oldest when full.
-- N is the length of `entries`; a method that changes the queue returns the new one.
pub mod Ring
pub mod Fifo
pub mod Valid
pub mod Push
pub mod Pop
pub mod Remove
pub mod Run
use rs_reticulum_lite.Prelude.{
  ℕ, zero, suc, ◌+◌, ◌-◌, ◌%◌, max, List, [], ◌∷◌, map, Option, none, some, Bool, true, false, ◌||◌,
  if◌then◌else◌, ◌==◌, leb, length, get_or, set, replicate,
}
use mathlib.Core.Option

pub record Queue {ℓ} (A : Type ℓ) : Type ℓ where
  pub entries : List (Option A)
  pub head : ℕ
  pub len : ℕ

module _ {ℓ} {A : Type ℓ} where
  abbrev pub capacity : Queue A → ℕ
  capacity q = length q.entries

  -- `clear`: `entries.fill(None)`
  pub clear : Queue A → Queue A
  clear q = record { entries = replicate (capacity q) none; head = 0; len = 0 }

  pub is_empty : Queue A → Bool
  is_empty q = q.len == 0

  pub push_drop_oldest : Queue A → A → Queue A × Bool
  push_drop_oldest q value =
      if n == 0
      then (q, false)
      else if len == n
      then (record q { entries = set entries head (some value); head = (head + 1) % n }, true)
      else (
        record q { entries = set entries ((head + len) % n) (some value); len = len + 1 },
        false,
      )
    where
      open q use {entries, head, len}

      n : ℕ
      n = capacity q

  pub peek : Queue A → Option A
  peek q = if q.len == 0 || capacity q == 0 then none else get_or q.entries q.head none

  -- One element of a `filter_map`.
  abbrev pub cons_some : Option A → List A → List A
  cons_some none rest = rest
  cons_some (some a) rest = a ∷ rest

  -- The loop of `iter`, with the count of offsets left. `(head + offset) % N.max(1)`.
  pub iter_from : List (Option A) → ℕ → ℕ → ℕ → List A
  iter_from es head zero offset = []
  iter_from es head (suc n) offset =
      cons_some (get_or es ((head + offset) % max (length es) 1) none)
        (iter_from es head n (offset + 1))

  unfoldable pub iter : Queue A → List A
  iter q = iter_from q.entries q.head q.len 0

  -- `for e in queue.iter_mut() { *e = f(*e) }`
  pub iter_mut : (A → A) → Queue A → Queue A
  iter_mut f q = record q { entries = map (Option.map f) q.entries }

  -- `if let Some(e) = queue.get_mut(offset) { *e = f(*e) }`
  pub get_mut : ℕ → (A → A) → Queue A → Queue A
  get_mut offset f q =
      if leb len offset || n == 0
      then q
      else record q { entries = set entries idx (Option.map f (get_or entries idx none)) }
    where
      open q use {entries, head, len}

      n : ℕ
      n = capacity q

      idx : ℕ
      idx = (head + offset) % n

  -- `entries[to] = entries[from].take()` for each shift, with the count of shifts left.
  pub shift_down : ℕ → ℕ → ℕ → List (Option A) → List (Option A)
  shift_down head zero shift es = es
  shift_down head (suc n) shift es =
      shift_down head n (shift + 1)
        (set (set es from none) ((head + shift) % length es) (get_or es from none))
    where
      from : ℕ
      from = (head + shift + 1) % length es

  pub remove : ℕ → Queue A → Option A × Queue A
  remove offset q = if leb len offset || n == 0 then (none, q) else (
    get_or entries idx none,
    record q {
      entries = shift_down head (len - 1 - offset) offset (set entries idx none);
      len = len - 1;
    },
  )
    where
      open q use {entries, head, len}

      n : ℕ
      n = capacity q

      idx : ℕ
      idx = (head + offset) % n

  pub pop : Queue A → Option A × Queue A
  pop q = if len == 0 || n == 0 then (none, q) else (
    get_or entries head none,
    record { entries = set entries head none; head = (head + 1) % n; len = len - 1 },
  )
    where
      open q use {entries, head, len}

      n : ℕ
      n = capacity q

-- `new`: an empty queue of capacity `n`.
pub new {ℓ} : (A : Type ℓ) → ℕ → Queue A
new A n = record { entries = replicate n none; head = 0; len = 0 }
