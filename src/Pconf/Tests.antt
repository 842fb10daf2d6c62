-- ===== src/Pconf/Tests.antt =====
-- c/src/lua_pconf.c on a configuration with a port.
use artorias.Prelude.{◌≡◌, refl, [], ◌∷◌}
use artorias.Lua.{str}
use artorias.Lua.Sample.{lua, begin}
use artorias.Pconf.{
  tnumber, tnil, cnf_of, follow, lpconf_get_pconf_value, lpconf_get_pconf_value-follow,
}

port : lpconf_get_pconf_value lua (11 ∷ []) begin ≡ tnumber 8080
unfolding lpconf_get_pconf_value
port = refl

below_a_number : lpconf_get_pconf_value lua (11 ∷ 12 ∷ 13 ∷ []) begin ≡ tnil
unfolding lpconf_get_pconf_value
below_a_number = refl

lpconf_get_pconf_value-follow_example :
    lpconf_get_pconf_value lua (11 ∷ 12 ∷ []) begin
    ≡ cnf_of (follow lua begin (11 ∷ 12 ∷ []) (lua.get begin 2 (str 100)))
lpconf_get_pconf_value-follow_example = lpconf_get_pconf_value-follow lua (11 ∷ 12 ∷ []) begin
