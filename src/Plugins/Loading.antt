-- ===== src/Plugins/Loading.antt =====
-- PluginHost.cpp: the list of the loaded plugins. A plugin is told by its address, a number; its name, the
-- canonical path of a file, `dlopen`, `dlsym` and what a plugin's constructor gives are arguments. An
-- exception is `none`. `cleaned` and `closed` hold what was cleaned up and closed, in that order.
use algiz.Base.{
  ℕ, zero, suc, ◌==◌, ◌≡◌, refl, sym, ap, ap₂, ◌∙◌, List, [], ◌∷◌, ◌++◌, append_assoc, append-nil,
  map, Option, none, some, Bool, true, false, ◌&&◌, ◌||◌, if◌then◌else◌, length, ==_refl,
}
use algiz.Base.Bytes.{Bytes, beq, beq_refl}
use algiz.Util.Case.{to_lower}

-- `PluginTuple`.
pub record Entry : Type 0 where
  pub path : Bytes
  pub plugin : ℕ
  pub handle : ℕ

pub record Host : Type 0 where
  pub plugins : List Entry
  pub cleaned : List ℕ
  pub closed : List ℕ

unfoldable pub same_entry : Entry → Entry → Bool
same_entry a b = beq a.path b.path && ((a.plugin == b.plugin) && (a.handle == b.handle))

-- `std::find` and `erase`: the list without the first entry that is the same.
erase_entry : Entry → List Entry → Option (List Entry)
unfolding same_entry
erase_entry entry [] = none
erase_entry entry (other ∷ rest) =
    if same_entry other entry
    then some rest
    else elim (erase_entry entry rest) [ none ↦ none | some kept ↦ some (other ∷ kept) ]

unfoldable pub unload_plugin : Entry → Host → Option Host
unfolding erase_entry
unload_plugin entry h = elim (erase_entry entry h.plugins) [
  | none ↦ none
  | some kept ↦ some (record h {
    plugins = kept;
    cleaned = h.cleaned ++ entry.plugin ∷ [];
    closed = h.closed ++ entry.handle ∷ [];
  })
]

-- `unloadPlugins`, on fuel.
unfoldable pub unload_all : ℕ → Host → Option Host
unload_all zero h = elim h.plugins [ [] ↦ some h | entry ∷ rest ↦ none ]
unload_all (suc fuel) h = elim h.plugins [
  | [] ↦ some h
  | entry ∷ rest ↦ elim (unload_plugin entry h) [ none ↦ none | some left ↦ unload_all fuel left ]
]

unfoldable pub unload_plugins : Host → Option Host
unfolding unload_all
unload_plugins h = unload_all (length h.plugins) h

-- `loadPlugin`, of a path that is canonical and there.
unfoldable pub load_plugin :
    (Bytes → Option ℕ) → (ℕ → Option ℕ) → Bytes → Host → Option (Entry × Host)
load_plugin dlopen make_plugin canonical h = elim (dlopen canonical) [
  | none ↦ none
  | some handle ↦ elim (make_plugin handle) [
    | none ↦ none
    | some plugin ↦
        let entry : Entry = record { path = canonical; plugin = plugin; handle = handle } in
        some (entry, record h { plugins = h.plugins ++ entry ∷ [] })
  ]
]

first_of : (Entry → Bool) → List Entry → Option Entry
first_of test [] = none
first_of test (entry ∷ rest) = if test entry then some entry else first_of test rest

abbrev is_some : Option Entry → Bool
is_some none = false
is_some (some entry) = true

unfoldable pub get_plugin : (ℕ → Bytes) → Bytes → Bool → Host → Option Entry
unfolding first_of
get_plugin get_name name true h =
    first_of
      (λ entry. beq entry.path name || beq (to_lower (get_name entry.plugin)) (to_lower name))
      h.plugins
get_plugin get_name name false h =
    first_of (λ entry. beq entry.path name || beq (get_name entry.plugin) name) h.plugins

unfoldable pub get_plugin_at : ℕ → Host → Option Entry
unfolding first_of
get_plugin_at plugin h = first_of (λ entry. entry.plugin == plugin) h.plugins

unfoldable pub has_path : Bytes → Host → Bool
unfolding first_of
has_path canonical h = is_some (first_of (λ entry. beq canonical entry.path) h.plugins)

unfoldable pub has_name : (ℕ → Bytes) → Bytes → Bool → Host → Bool
unfolding first_of
has_name get_name name true h =
    is_some (first_of (λ entry. beq (to_lower (get_name entry.plugin)) (to_lower name)) h.plugins)
has_name get_name name false h =
    is_some (first_of (λ entry. beq (get_name entry.plugin) name) h.plugins)

same_entry_refl : (entry : Entry) → same_entry entry entry ≡ true
unfolding same_entry
same_entry_refl entry = rw (beq_refl entry.path, ==_refl entry.plugin, ==_refl entry.handle) refl

-- A host whose plugins were all unloaded, in the order in which they were loaded.
abbrev pub unloaded : Host → Host
unloaded h = record {
  plugins = [];
  cleaned = h.cleaned ++ map (λ (e : Entry). e.plugin) h.plugins;
  closed = h.closed ++ map (λ (e : Entry). e.handle) h.plugins;
}

unload_front :
    (entry : Entry) (rest : List Entry) (cleaned closed : List ℕ)
    → unload_plugin entry (record { plugins = entry ∷ rest; cleaned = cleaned; closed = closed })
      ≡ some (record {
        plugins = rest;
        cleaned = cleaned ++ entry.plugin ∷ [];
        closed = closed ++ entry.handle ∷ [];
      })
unfolding unload_plugin erase_entry
unload_front entry rest cleaned closed = rw (same_entry_refl entry, unload_plugin, erase_entry) refl

unload_list :
    (plugins : List Entry) (cleaned closed : List ℕ)
    → unload_all (length plugins) (record { plugins = plugins; cleaned = cleaned; closed = closed })
      ≡ some (unloaded (record { plugins = plugins; cleaned = cleaned; closed = closed }))
unfolding unload_all
unload_list [] cleaned closed =
    ap₂ (λ a b. some (record { plugins = []; cleaned = a; closed = b })) (sym (append-nil cleaned))
      (sym (append-nil closed))
unload_list (entry ∷ rest) cleaned closed =
    ap
      (λ (o : Option Host). elim o as (λ _. Option Host) [
        | none ↦ none
        | some left ↦ unload_all (length rest) left
      ])
      (unload_front entry rest cleaned closed)
    ∙ (unload_list rest (cleaned ++ entry.plugin ∷ []) (closed ++ entry.handle ∷ [])
        ∙ ap₂ (λ a b. some (record { plugins = []; cleaned = a; closed = b }))
            (append_assoc cleaned (entry.plugin ∷ []) (map (λ (e : Entry). e.plugin) rest))
            (append_assoc closed (entry.handle ∷ []) (map (λ (e : Entry). e.handle) rest)))

-- `unloadPlugins` comes to an end: every plugin is cleaned up and its library closed, each once and in the
-- order in which they were loaded, and none is left.
pub unload_plugins_lem : (h : Host) → unload_plugins h ≡ some (unloaded h)
unfolding unload_plugins
unload_plugins_lem h = unload_list h.plugins h.cleaned h.closed
