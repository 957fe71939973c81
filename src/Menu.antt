-- ===== src/Menu.antt =====
-- menu/categories.service.ts and menu/menu-items.service.ts: what a restaurant sells.
pub mod Categories
pub mod Items
use restosync_api.Base.{Option, none, some}

-- A field of a change to a column that may be null: `undefined`, `null` or a value
abbrev pub Patch : Type 0 → Type 0
Patch A = Option (Option A)

abbrev pub patched : {A : Type 0} → Patch A → Option A → Option A
patched none old = old
patched (some new) old = new
