-- ===== src/Plugins/ModuleCache.antt =====
-- plugins/fileserv/ModuleCache: the loaded modules, the least recently used one of which makes place for a
-- new one. The clock, `dlopen` and `dlsym` are arguments; the order of the map is the order of the list.
-- `closed` holds the handles that were closed.
pub mod Bounded
use algiz.Base.{
  ℕ, List, [], ◌∷◌, ◌++◌, Option, none, some, Bool, true, false, ◌||◌, if◌then◌else◌, ltb, leb,
  length,
}
use algiz.Base.Bytes.{Bytes, beq}

pub record Item : Type 0 where
  pub path : Bytes
  pub last_used : ℕ
  pub handle : ℕ
  pub function : ℕ

pub record ModuleCache : Type 0 where
  pub max_size : ℕ
  pub cache : List Item
  pub closed : List ℕ

-- A function that was found, or an exception; the cache as it is then.
pub data Loaded : Type 0 where
  loaded : ℕ → ModuleCache → Loaded
  threw : ModuleCache → Loaded

unfoldable pub find : Bytes → List Item → Option Item
find path [] = none
find path (item ∷ items) = if beq item.path path then some item else find path items

unfoldable pub touch : ℕ → Bytes → List Item → List Item
touch now path [] = []
touch now path (item ∷ items) =
    if beq item.path path
    then record item { last_used = now } ∷ items
    else item ∷ touch now path items

-- `min_element` and the erasure of what it finds: the first item that no other one is older than.
unfoldable pub take_oldest : Item → List Item → Item × List Item
take_oldest item [] = (item, [])
take_oldest item (next ∷ items) =
    let (oldest, rest) = take_oldest next items in
    if ltb oldest.last_used item.last_used then (oldest, item ∷ rest) else (item, next ∷ items)

make_place : List Item → ModuleCache → ModuleCache
unfolding take_oldest
make_place [] c = c
make_place (item ∷ items) c =
    let (oldest, rest) = take_oldest item items in
    record c { cache = rest; closed = oldest.handle ∷ c.closed }

unfoldable pub make_space : ModuleCache → ModuleCache
unfolding make_place
make_space c = if ltb (length c.cache) c.max_size then c else make_place c.cache c

-- The constructor of an item, of a handle that is not null.
add_item : (ℕ → Option ℕ) → ℕ → Bytes → ℕ → ModuleCache → Loaded
add_item dlsym now path handle c = elim (dlsym handle) [
  | none ↦ threw c
  | some function ↦ loaded function (record c {
    cache =
        c.cache
        ++ record { path = path; last_used = now; handle = handle; function = function } ∷ [];
  })
]

unfoldable pub load_new : (Bytes → Option ℕ) → (ℕ → Option ℕ) → ℕ → Bytes → ModuleCache → Loaded
unfolding add_item
load_new dlopen dlsym now path c = elim (dlopen path) [
  | none ↦ threw c
  | some handle ↦ add_item dlsym now path handle c
]

-- `operator[]`.
unfoldable pub get : (Bytes → Option ℕ) → (ℕ → Option ℕ) → ℕ → Bytes → ModuleCache → Loaded
unfolding load_new make_space
get dlopen dlsym now path c = elim (find path c.cache) [
  | some item ↦ loaded item.function (record c { cache = touch now path c.cache })
  | none ↦
      load_new dlopen dlsym now path (if leb c.max_size (length c.cache) then make_space c else c)
]

erase_path : Bytes → List Item → List Item
erase_path path [] = []
erase_path path (item ∷ items) = if beq item.path path then items else item ∷ erase_path path items

unfoldable pub remove : Bytes → ModuleCache → Bool × ModuleCache
unfolding erase_path
remove path c = elim (find path c.cache) [
  | none ↦ (false, c)
  | some item ↦
      (true, record c { cache = erase_path path c.cache; closed = item.handle ∷ c.closed })
]
