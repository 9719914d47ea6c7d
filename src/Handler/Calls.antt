-- ===== src/Handler/Calls.antt =====
-- The calls of the Prisma client that the services make, each one atomic step of a handler, and
-- the emission of an event.
use mathlib.Core.Option
use help_mi.Common.{
  ℕ, suc, Bool, String, Option, none, some, List, [], ◌∷◌, ◌++◌, if◌then◌else◌, or_default,
}
use help_mi.Schema.{Event}
use help_mi.World.{World, Table}
use help_mi.Database.{find_first, find_many, update_rows, count_rows, add_row, has_row}
use help_mi.Handler.{Handler, pure, throw, await, unique_violation, record_missing}

-- `new Date()`, the configuration: what a handler reads without writing.
abbrev pub reads : {A : Type 0} → (World → A) → Handler A
reads f = await (λ w. w) (λ w. pure (f w))

abbrev pub writes : (World → World) → Handler (Unit {0})
writes f = await f (λ w. pure tt)

module _ {Row : Type 0} (t : Table Row) where
  -- `findUnique`, `findFirst`
  abbrev pub find : (Row → Bool) → Handler (Option Row)
  find p = reads (λ w. find_first p (t.rows w))

  -- `findMany`
  abbrev pub find_all : (Row → Bool) → Handler (List Row)
  find_all p = reads (λ w. find_many p (t.rows w))

  -- `updateMany`: the condition is tested and the rows are written in one statement. The data may
  -- hold `new Date()`.
  abbrev pub update_many : (Row → Bool) → (ℕ → Row → Row) → Handler ℕ
  update_many p f =
      await (λ w. t.put (update_rows p (f w.clock) (t.rows w)) w)
        (λ w. pure (count_rows p (t.rows w)))

  -- `create`: the new row has the next uuid; `clash` says which rows the unique constraints of
  -- the table forbid beside it.
  abbrev pub create : (Row → Row → Bool) → (String → ℕ → Row) → Handler Row
  create clash make =
      await
        (λ w.
          let new = make (w.services.uuid w.next_id) w.clock in
          if has_row (clash new) (t.rows w)
          then w
          else t.put (add_row new (t.rows w)) (record w { next_id = suc w.next_id }))
        (λ w.
          let new = make (w.services.uuid w.next_id) w.clock in
          if has_row (clash new) (t.rows w) then throw unique_violation else pure new)

abbrev pub found : {Row : Type 0} → Option Row → (Row → Row) → Handler Row
found none f = throw record_missing
found (some r) f = pure (f r)

module _ {Row : Type 0} (t : Table Row) where
  -- `findUniqueOrThrow`
  abbrev pub find_or_throw : (Row → Bool) → Handler Row
  find_or_throw p = await (λ w. w) (λ w. found (find_first p (t.rows w)) (λ r. r))

  -- `update`, which throws if there is no such row.
  abbrev pub update : (Row → Bool) → (ℕ → Row → Row) → Handler Row
  update p f =
      await (λ w. t.put (update_rows p (f w.clock) (t.rows w)) w)
        (λ w. found (find_first p (t.rows w)) (f w.clock))

-- `upsert`: one statement, which updates the row that fits or adds one.
module _ {Row : Type 0} (t : Table Row) where
  abbrev upserted : (Row → Bool) → (ℕ → Row → Row) → (String → ℕ → Row) → World → World
  upserted p f make w =
      if has_row p (t.rows w)
      then t.put (update_rows p (f w.clock) (t.rows w)) w
      else t.put (add_row (make (w.services.uuid w.next_id) w.clock) (t.rows w))
          (record w { next_id = suc w.next_id })

  abbrev pub upsert : (Row → Bool) → (ℕ → Row → Row) → (String → ℕ → Row) → Handler Row
  upsert p f make = await (upserted p f make) (λ w. pure (
      or_default (Option.map (f w.clock) (find_first p (t.rows w)))
        (make (w.services.uuid w.next_id) w.clock)))

-- `randomUUID()`
abbrev pub fresh_uuid : Handler String
fresh_uuid =
    await (λ w. record w { next_id = suc w.next_id }) (λ w. pure (w.services.uuid w.next_id))

-- `this.events.emit`
abbrev pub emit : Event → Handler (Unit {0})
emit e = writes (λ w. record w { events = w.events ++ e ∷ [] })
