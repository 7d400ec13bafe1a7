-- ===== src/Pages/Roles.antt =====
-- `RoleGuard` of `App.jsx`, and the entries of `RoleSelector.jsx`.
pub mod Passcode
use vidhi_trading_platform.Prelude.{
  Bool, true, false, not, ◌&&◌, String, str_eq, trim, List, [], ◌∷◌, if◌then◌else◌,
}
use vidhi_trading_platform.Store.Types.{State, Store, Browser}
use vidhi_trading_platform.Store.Server.{Reply, thrown, set_role}

-- Where a route leads: to its page, or to the selection of a role.
pub data Shown : Type 0 where
  page select_role : Shown

-- `RoleGuard`; the required role is "" where there is none.
unfoldable pub role_guard : String → State → Shown
role_guard required s =
    if str_eq s.role ""
    then select_role
    else (if not (str_eq required "") && not (str_eq s.role required) then select_role else page)

-- `CREATOR_PASSCODE`
abbrev pub creator_passcode : String
creator_passcode = "vidhi-admin"

-- `enterAsStudent`
unfoldable pub enter_as_student :
    Browser → String → String → Reply String → Reply String → Store → Store
unfolding set_role trim
enter_as_student b name team user key st =
    if str_eq (trim name) "" then st else set_role b "student" (trim name) (trim team) user key st

-- `enterAsCreator`: nothing but an error that is shown where the passcode is wrong.
unfoldable pub enter_as_creator : Browser → String → Store → Store
unfolding set_role
enter_as_creator b passcode st =
    if str_eq passcode creator_passcode
    then set_role b "creator" "Contest Creator" "" thrown thrown st
    else st

-- `handleExit`
unfoldable pub handle_exit : Browser → Store → Store
unfolding set_role
handle_exit b st = set_role b "" "" "" thrown thrown st

-- What is done at the selection of a role, and the way back to it.
pub data Entry : Type 0 where
  as_student : String → String → Reply String → Reply String → Entry
  as_creator : String → Entry
  exit : Entry

unfoldable pub on_entry : Browser → Entry → Store → Store
unfolding enter_as_student enter_as_creator handle_exit
on_entry b (as_student name team user key) st = enter_as_student b name team user key st
on_entry b (as_creator passcode) st = enter_as_creator b passcode st
on_entry b exit st = handle_exit b st

unfoldable pub on_entries : Browser → List Entry → Store → Store
unfolding on_entry
on_entries b [] st = st
on_entries b (e ∷ es) st = on_entries b es (on_entry b e st)
