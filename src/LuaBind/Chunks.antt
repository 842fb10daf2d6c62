-- ===== src/LuaBind/Chunks.antt =====
-- c/src/lua_bind.c: the table of loaded files.
use artorias.Prelude.{ℕ, ◌≡◌, refl, ◌∙◌, true, false, [], ◌∷◌, ◌==◌, arith}
use artorias.Lua.{
  Value, nil, str, light, table, Interp, IsInterp, top, Outcome, ended, raised, bad_index, Act,
  ◌>>=◌, ◌>>◌, push, at, get_table, set_table, load_file, check_metatable,
}
use artorias.LuaBind.Threads.{Called, returned, failed, undefined, status}
use artorias.LuaBind.Locals.{text_of}

-- "as_lrk_003"
abbrev lrk_lcode_chunk_table : ℕ
lrk_lcode_chunk_table = 3

-- The result `Called`: `LUA_OK` and what stands on the top, or an error.
abbrev on_top : {A K : Type 0} → Outcome K A → Called Value K
on_top (ended a [] l) = undefined
on_top (ended a (v ∷ s) l) = returned v l
on_top (raised l) = failed l
on_top bad_index = undefined

abbrev file_of : Value → ℕ
file_of (light f) = f
file_of _ = 0

module _ {K : Type 0} (lua : Interp K) where
  -- What `luaL_loadfile` has pushed is the entry, a message too.
  lcf_ref_lcode_chunk : Act K (Unit {0})
  lcf_ref_lcode_chunk = do
    f ← at lua (top 1)
    check_metatable lua lrk_lcode_chunk_table
    push (text_of f)
    load_file lua (file_of f)
    set_table lua (top 3)

  lbind_ref_lcode_chunk : ℕ → K → Called (Unit {0}) K
  unfolding lcf_ref_lcode_chunk
  lbind_ref_lcode_chunk filename l = status (lcf_ref_lcode_chunk (light filename ∷ []) l)

  -- No table is pushed.
  lcf_unref_lcode_chunk : Act K (Unit {0})
  lcf_unref_lcode_chunk = do f ← at lua (top 1); push (text_of f); push nil; set_table lua (top 3)

  lbind_unref_lcode_chunk : ℕ → K → Called (Unit {0}) K
  unfolding lcf_unref_lcode_chunk
  lbind_unref_lcode_chunk filename l = status (lcf_unref_lcode_chunk (light filename ∷ []) l)

  lcf_get_lcode_chunk : Act K (Unit {0})
  lcf_get_lcode_chunk = do
    f ← at lua (top 1)
    check_metatable lua lrk_lcode_chunk_table
    push (text_of f)
    get_table lua (top 2)

  unfoldable pub lbind_get_lcode_chunk : ℕ → K → Called Value K
  unfolding lcf_get_lcode_chunk
  lbind_get_lcode_chunk filename l = on_top (lcf_get_lcode_chunk (light filename ∷ []) l)

  -- What a file that is loaded, and then taken out of the table, leaves: the second call fails, and the
  -- file is still got.
  record IsLoaded (filename : ℕ) (l : K) : Type 0 where
    state : K
    loads : lbind_ref_lcode_chunk filename l ≡ returned tt state
    fails : lbind_unref_lcode_chunk filename state ≡ failed state
    gets : lbind_get_lcode_chunk filename state ≡ returned (lua.load_file l filename).0 state

  -- A chunk stays.
  lbind_get_lcode_chunk-IsLoaded :
      (is : IsInterp lua) (a filename : ℕ) (l : K)
      → lua.get l lua.registry (str lrk_lcode_chunk_table) ≡ table a
      → (lua.registry == a) ≡ false
      → IsLoaded filename l
  unfolding lbind_ref_lcode_chunk lbind_unref_lcode_chunk lbind_get_lcode_chunk
  lbind_get_lcode_chunk-IsLoaded is a filename l here apart =
      let (v, l1) = lua.load_file l filename in
      let l2 = lua.set l1 a (str filename) v in
      let same_a : (a == a) ≡ true = ground arith in
      let same_f : (filename == filename) ≡ true = ground arith in
      let here_2 : lua.get l2 lua.registry (str lrk_lcode_chunk_table) ≡ table a =
        is.get-set l1 a (str filename) v lua.registry _
        ∙ rw apart (is.load_keeps l filename lua.registry _ ∙ here) in
      let got : lua.get l2 a (str filename) ≡ v =
        is.get-set l1 a (str filename) v a (str filename) ∙ rw (same_a, same_f) refl in
      record { state = l2; loads = rw here refl; fails = refl; gets = rw (here_2, got) refl }
