-- ===== src/Plugins/ModuleCache/Bounded.antt =====
-- plugins/fileserv/ModuleCache: how many modules are loaded at most.
use algiz.Base.{
  ℕ, suc, ◌≡◌, ◌≤◌, ◌<◌, refl, ap, List, [], ◌∷◌, ◌++◌, Option, none, some, if◌then◌else◌, ltb, leb,
  length, length-append, arith, if-both,
}
use algiz.Base.Bytes.{Bytes, beq}
use algiz.Plugins.ModuleCache.{
  Item, ModuleCache, Loaded, loaded, threw, find, touch, take_oldest, make_place, make_space,
  add_item, load_new, get,
}

length-touch :
    (now : ℕ) (path : Bytes) (items : List Item) → length (touch now path items) ≡ length items
unfolding touch
length-touch now path [] = refl
length-touch now path (item ∷ items) =
    if-both (λ (l : List Item). length l ≡ suc (length items)) (beq item.path path) _ _ (λ _. refl)
      (λ _. ap suc (length-touch now path items))

length-take_oldest :
    (item : Item) (items : List Item) → length (take_oldest item items).1 ≡ length items
unfolding take_oldest
length-take_oldest item [] = refl
length-take_oldest item (next ∷ items) =
    if-both (λ (r : Item × List Item). length r.1 ≡ suc (length items))
      (ltb (take_oldest next items).0.last_used item.last_used) _ _
      (λ _. ap suc (length-take_oldest next items)) (λ _. refl)

-- No more than the size of the cache are loaded.
abbrev pub IsBounded : ModuleCache → Type 0
IsBounded c = length c.cache ≤ c.max_size

HasRoom : ModuleCache → Type 0
HasRoom c = length c.cache < c.max_size

make_place-HasRoom :
    (items : List Item) (c : ModuleCache)
    → 0 < c.max_size
    → c.cache ≡ items
    → IsBounded c
    → HasRoom (make_place items c)
unfolding make_place HasRoom
make_place-HasRoom [] c h e b = omega (arith, ap length e)
make_place-HasRoom (item ∷ items) c h e b =
    omega (arith, ap length e, length-take_oldest item items)

make_space-HasRoom : (c : ModuleCache) → 0 < c.max_size → IsBounded c → HasRoom (make_space c)
unfolding make_space HasRoom
make_space-HasRoom c h b =
    if-both HasRoom (ltb (length c.cache) c.max_size) _ _ (λ e. ground arith)
      (λ _. make_place-HasRoom c.cache c h refl b)

-- The cache that is left, whether a function was found or not.
unfoldable pub cache_of : Loaded → ModuleCache
cache_of (loaded function c) = c
cache_of (threw c) = c

item_added :
    (now : ℕ) (path : Bytes) (handle : ℕ) (c : ModuleCache) (o : Option ℕ)
    → HasRoom c
    → IsBounded (
        cache_of (elim o [
          | none ↦ threw c
          | some function ↦ loaded function (record c {
            cache =
                c.cache
                ++ record { path = path; last_used = now; handle = handle; function = function }
                  ∷ [];
          })
        ]))
unfolding HasRoom cache_of
item_added now path handle c none h = omega (arith, h)
item_added now path handle c (some function) h = omega (
  arith,
  h,
  length-append c.cache
      (record { path = path; last_used = now; handle = handle; function = function } ∷ []),
)

opened :
    (dlsym : ℕ → Option ℕ) (now : ℕ) (path : Bytes) (c : ModuleCache) (o : Option ℕ)
    → HasRoom c
    → IsBounded
        (cache_of (elim o [ none ↦ threw c | some handle ↦ add_item dlsym now path handle c ]))
unfolding HasRoom cache_of add_item
opened dlsym now path c none h = omega (arith, h)
opened dlsym now path c (some handle) h = item_added now path handle c (dlsym handle) h

load_new-IsBounded :
    (dlopen : Bytes → Option ℕ) (dlsym : ℕ → Option ℕ) (now : ℕ) (path : Bytes) (c : ModuleCache)
    → HasRoom c
    → IsBounded (cache_of (load_new dlopen dlsym now path c))
unfolding load_new
load_new-IsBounded dlopen dlsym now path c h = opened dlsym now path c (dlopen path) h

room_made :
    (c : ModuleCache)
    → 0 < c.max_size
    → IsBounded c
    → HasRoom (if leb c.max_size (length c.cache) then make_space c else c)
unfolding HasRoom
room_made c h b =
    if-both HasRoom (leb c.max_size (length c.cache)) _ _ (λ _. make_space-HasRoom c h b)
      (λ e. ground arith)

looked_up :
    (dlopen : Bytes → Option ℕ) (dlsym : ℕ → Option ℕ) (now : ℕ) (path : Bytes) (c : ModuleCache)
    (o : Option Item)
    → 0 < c.max_size
    → IsBounded c
    → IsBounded (
        cache_of (elim o [
          | some item ↦ loaded item.function (record c { cache = touch now path c.cache })
          | none ↦
              load_new dlopen dlsym now path
                (if leb c.max_size (length c.cache) then make_space c else c)
        ]))
unfolding cache_of
looked_up dlopen dlsym now path c (some item) h b = omega (arith, b, length-touch now path c.cache)
looked_up dlopen dlsym now path c none h b =
    load_new-IsBounded dlopen dlsym now path _ (room_made c h b)

-- A cache of a size above 0 never has more modules than its size: whatever is looked up, found, loaded in
-- place of the oldest one, or not loaded at all, no more are there afterwards.
pub get-IsBounded :
    (dlopen : Bytes → Option ℕ) (dlsym : ℕ → Option ℕ) (now : ℕ) (path : Bytes) (c : ModuleCache)
    → 0 < c.max_size
    → IsBounded c
    → IsBounded (cache_of (get dlopen dlsym now path c))
unfolding get
get-IsBounded dlopen dlsym now path c h b =
    looked_up dlopen dlsym now path c (find path c.cache) h b
