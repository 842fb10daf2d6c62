-- ===== src/LuaBind/Threads.antt =====
-- c/src/lua_bind.c: the table of the Lua threads of the worker's threads, and that of their local
-- variables.
pub mod Lent
use artorias.Prelude.{
  ℕ, ◌≡◌, refl, ap, ◌∙◌, ◌≢◌, Bool, true, false, Option, none, some, List, [], ◌∷◌, ◌&&◌, ◌==◌,
  arith, if◌then◌else◌, Bool-cases, inl, inr,
}
use artorias.Lua.{
  Value, nil, integer, str, table, thread, same, Interp, IsInterp, top, Outcome, ended, raised,
  bad_index, Act, ◌>>=◌, ◌>>◌, push, at, push_value, set_table, new_table, new_thread,
  check_metatable,
}

-- "as_lrk_002" and "as_lrk_004"
abbrev pub lrk_thread_local_var_table : ℕ
lrk_thread_local_var_table = 2

abbrev pub lrk_tid_thread_table : ℕ
lrk_tid_thread_table = 4

-- How a function that calls by `lua_pcall` comes back: with `LUA_OK` and a value, or with an error.
pub data Called (A K : Type 0) : Type 0 where
  returned : A → K → Called A K
  failed : K → Called A K
  undefined : Called A K

-- `LUA_OK` without results.
abbrev pub status : {A K : Type 0} → Outcome K A → Called (Unit {0}) K
status (ended a s l) = returned tt l
status (raised l) = failed l
status bad_index = undefined

-- The thread on the top, or NULL.
abbrev to_thread : {A K : Type 0} → Outcome K A → Called (Option ℕ) K
to_thread (ended a (thread t ∷ s) l) = returned (some t) l
to_thread (ended a _ l) = returned none l
to_thread (raised l) = returned none l
to_thread bad_index = undefined

-- `lua_tointeger`
abbrev pub to_integer : Value → ℕ
to_integer (integer n) = n
to_integer _ = 0

module _ {K : Type 0} (lua : Interp K) where
  lcf_ref_tid_lthread : Act K (Unit {0})
  lcf_ref_tid_lthread = do
    v ← at lua (top 1)
    check_metatable lua lrk_tid_thread_table
    check_metatable lua lrk_thread_local_var_table
    new_thread lua
    push (integer (to_integer v))
    push_value lua (top 2)
    set_table lua (top 5)
    push_value lua (top 1)
    new_table lua
    set_table lua (top 4)

  pub lbind_ref_tid_lthread : ℕ → K → Called (Option ℕ) K
  unfolding lcf_ref_tid_lthread
  lbind_ref_tid_lthread tid l = to_thread (lcf_ref_tid_lthread (integer tid ∷ []) l)

  lcf_unref_tid_lthread : Act K (Unit {0})
  lcf_unref_tid_lthread = do
    v ← at lua (top 1)
    check_metatable lua lrk_tid_thread_table
    push (integer (to_integer v))
    push nil
    set_table lua (top 3)

  pub lbind_unref_tid_lthread : ℕ → K → Called (Unit {0}) K
  unfolding lcf_unref_tid_lthread
  lbind_unref_tid_lthread tid l = status (lcf_unref_tid_lthread (integer tid ∷ []) l)
