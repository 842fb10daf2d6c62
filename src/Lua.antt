-- ===== src/Lua.antt =====
-- The calls of the Lua interpreter that c/src/lua_bind.c and c/src/lua_pconf.c use. The stack is a list,
-- its top first; tables, new threads and files are a parameter.
pub mod Sample
pub mod Stack
use artorias.Prelude.{
  ℕ, zero, suc, ◌+◌, ◌-◌, ◌≡◌, ◌≢◌, Bool, true, false, Option, none, some, List, [], ◌∷◌, ◌&&◌,
  ◌==◌, leb, if◌then◌else◌, length, get_elem?,
}

-- A number that is equal to a 64-bit integer is `integer`, by its bit pattern, also where Lua holds it
-- as a float, since both are one key of a table; `float` is any other number. Tables, threads and
-- functions by number; a text, and the address of a text in C, by the number of the text.
pub data Value : Type 0 where
  nil : Value
  integer float str light table thread function : ℕ → Value

abbrev pub same : Value → Value → Bool
same nil nil = true
same (integer x) (integer y) = x == y
same (float x) (float y) = x == y
same (str x) (str y) = x == y
same (light x) (light y) = x == y
same (table x) (table y) = x == y
same (thread x) (thread y) = x == y
same (function x) (function y) = x == y
same _ _ = false

-- The registry is a table, and so are the globals. Loading a file gives a function or a message.
pub record Interp (K : Type 0) : Type 0 where
  pub registry : ℕ
  pub globals : ℕ
  pub get : K → ℕ → Value → Value
  pub set : K → ℕ → Value → Value → K
  pub new_table : K → ℕ × K
  pub new_thread : K → ℕ × K
  pub load_file : K → ℕ → Value × K

-- What the manual says of them.
pub record IsInterp {K : Type 0} (lua : Interp K) : Type 0 where
  pub get-set :
      (l : K) (t : ℕ) (k v : Value) (t' : ℕ) (k' : Value)
      → lua.get (lua.set l t k v) t' k' ≡ (if t' == t && same k' k then v else lua.get l t' k')
  pub table_keeps : (l : K) (t : ℕ) (k : Value) → lua.get (lua.new_table l).1 t k ≡ lua.get l t k
  pub table_empty : (l : K) (k : Value) → lua.get l (lua.new_table l).0 k ≡ nil
  pub table_apart : (l : K) (t : ℕ) (k : Value) → lua.get l t k ≢ table (lua.new_table l).0
  pub thread_keeps : (l : K) (t : ℕ) (k : Value) → lua.get (lua.new_thread l).1 t k ≡ lua.get l t k
  pub load_keeps :
      (l : K) (name t : ℕ) (k : Value) → lua.get (lua.load_file l name).1 t k ≡ lua.get l t k

-- An index of the stack: from its bottom, from its top (`-i`), or the registry.
pub data Index : Type 0 where
  bottom top : ℕ → Index
  registry_index : Index

-- How C code goes on: with a value; by a Lua error; or it has used an index that is not there.
pub data Outcome (K A : Type 0) : Type 0 where
  ended : A → List Value → K → Outcome K A
  raised : K → Outcome K A
  bad_index : Outcome K A

abbrev pub Act : Type 0 → Type 0 → Type 0
Act K A = List Value → K → Outcome K A

abbrev pub continue : {K A B : Type 0} → Outcome K A → (A → Act K B) → Outcome K B
continue (ended a s l) f = f a s l
continue (raised l) f = raised l
continue bad_index f = bad_index

infixl 5 ◌>>=◌ ◌>>◌
abbrev pub ◌>>=◌ : {K A B : Type 0} → Act K A → (A → Act K B) → Act K B
◌>>=◌ m f s l = continue (m s l) f

abbrev pub ◌>>◌ : {K A B : Type 0} → Act K A → Act K B → Act K B
m >> n = m >>= λ _. n

abbrev pub pure : {K A : Type 0} → A → Act K A
pure a s l = ended a s l

abbrev pub raise : {K A : Type 0} → Act K A
raise s l = raised l

module _ {K : Type 0} where
  abbrev pub push : Value → Act K (Unit {0})
  push v s l = ended tt (v ∷ s) l

  -- Pops what is on the top.
  abbrev pub pop : Act K Value
  pop [] l = bad_index
  pop (v ∷ s) l = ended v s l

  -- `lua_gettop`
  abbrev pub get_top : Act K ℕ
  get_top s l = ended (length s) s l

  abbrev pub there : {A : Type 0} → Option A → Act K A
  there none s l = bad_index
  there (some a) s l = ended a s l

  module _ (lua : Interp K) where
    abbrev pub at : Index → Act K Value
    at (bottom i) s l =
        if leb 1 i && leb i (length s) then there (get_elem? s (length s - i)) s l else bad_index
    at (top i) s l = if leb 1 i then there (get_elem? s (i - 1)) s l else bad_index
    at registry_index s l = ended (table lua.registry) s l

    abbrev pub push_value : Index → Act K (Unit {0})
    push_value i = at i >>= push

    abbrev pub get_from : Value → Value → Act K (Unit {0})
    get_from (table t) k s l = push (lua.get l t k) s l
    get_from _ k s l = raised l

    -- `lua_gettable`
    abbrev pub get_table : Index → Act K (Unit {0})
    get_table i = at i >>= λ t. pop >>= get_from t

    abbrev pub set_in : Value → Value → Value → Act K (Unit {0})
    set_in (table t) nil v s l = raised l
    set_in (table t) k v s l = ended tt s (lua.set l t k v)
    set_in _ k v s l = raised l

    -- `lua_settable`
    abbrev pub set_table : Index → Act K (Unit {0})
    set_table i = at i >>= λ t. pop >>= λ v. pop >>= λ k. set_in t k v

    abbrev pub new_table : Act K (Unit {0})
    new_table s l = push (table (lua.new_table l).0) s (lua.new_table l).1

    abbrev pub new_thread : Act K (Unit {0})
    new_thread s l = push (thread (lua.new_thread l).0) s (lua.new_thread l).1

    -- `luaL_loadfile`
    abbrev pub load_file : ℕ → Act K (Unit {0})
    load_file name s l = push (lua.load_file l name).0 s (lua.load_file l name).1

    abbrev pub checked : Value → Act K (Unit {0})
    checked nil = raise
    checked v = push v

    -- `lbind_checkmetatable`
    abbrev pub check_metatable : ℕ → Act K (Unit {0})
    check_metatable name s l = checked (lua.get l lua.registry (str name)) s l
