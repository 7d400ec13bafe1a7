-- ===== src/Pages/Roles/Passcode.antt =====
-- Who comes to the page of the creators.
use vidhi_trading_platform.Prelude.{
  true, false, String, str_eq, List, [], ◌∷◌, if_either, ◌≡◌, ◌≢◌, refl, All, Bool-cases, inl, inr,
  eq_iff, trim, arith,
}
use vidhi_trading_platform.Store.Types.{State, Store, Browser}
use vidhi_trading_platform.Store.Storage.{change, save}
use vidhi_trading_platform.Store.Server.{
  Reply, answered, refused, thrown, set_role, register, take_key,
}
use vidhi_trading_platform.Pages.Roles.{
  page, select_role, role_guard, creator_passcode, enter_as_student, enter_as_creator, handle_exit,
  Entry, as_student, as_creator, exit, on_entry, on_entries,
}

-- An entry that is not one with the passcode.
abbrev pub IsPlain : Entry → Type 0
IsPlain (as_creator passcode) = passcode ≢ creator_passcode
IsPlain _ = Unit

role-take_key :
    (b : Browser) (key : Reply String) (st : Store) → (take_key b key st).state.role ≡ st.state.role
unfolding take_key save
role-take_key b (answered k) st = refl
role-take_key b refused st = refl
role-take_key b thrown st = refl

role-register :
    (b : Browser) (user key : Reply String) (st : Store)
    → (register b user key st).state.role ≡ st.state.role
unfolding register
role-register b (answered i) key st = role-take_key b key _
role-register b refused key st = refl
role-register b thrown key st = refl

role-set_role :
    (b : Browser) (role name team : String) (user key : Reply String) (st : Store)
    → (set_role b role name team user key st).state.role ≡ role
unfolding set_role change save
role-set_role b role name team user key st =
    let HasRole : Store → Type 0 = λ (t : Store). t.state.role ≡ role in
    if_either HasRole (str_eq role "student")
      (if_either HasRole (str_eq name "") refl (role-register b user key _)) refl

-- A role that is not the creators'.
abbrev IsBarred : State → Type 0
IsBarred s = s.role ≢ "creator"

apart : (a : String) → str_eq a "creator" ≡ false → a ≢ "creator"
apart a h e =
    let w : str_eq a "creator" ≡ true = (eq_iff a "creator").1 e in absurd (ground (arith, h, w))

on_entry-IsBarred :
    (b : Browser) (e : Entry) (st : Store)
    → IsPlain e
    → IsBarred st.state
    → IsBarred (on_entry b e st).state
unfolding on_entry enter_as_student enter_as_creator handle_exit
on_entry-IsBarred b (as_student name team user key) st p h =
    if_either (λ (t : Store). IsBarred t.state) (str_eq (trim name) "") h
      (rw (role-set_role b "student" (trim name) (trim team) user key st) (apart "student" refl))
on_entry-IsBarred b (as_creator passcode) st p h =
    elim (Bool-cases (str_eq passcode creator_passcode)) [
      | inl e ↦ absurd (p ((eq_iff passcode creator_passcode).0 e))
      | inr e ↦ rw e h
    ]
on_entry-IsBarred b exit st p h = rw (role-set_role b "" "" "" thrown thrown st) (apart "" refl)

on_entries-IsBarred :
    (b : Browser) (es : List Entry) (st : Store)
    → All IsPlain es
    → IsBarred st.state
    → IsBarred (on_entries b es st).state
unfolding on_entries
on_entries-IsBarred b [] st p h = h
on_entries-IsBarred b (e ∷ es) st p h =
    on_entries-IsBarred b es (on_entry b e st) p.1 (on_entry-IsBarred b e st p.0 h)

role_guard-IsBarred : (s : State) → IsBarred s → role_guard "creator" s ≡ select_role
unfolding role_guard
role_guard-IsBarred s h = elim (Bool-cases (str_eq s.role "creator")) [
  | inl e ↦ absurd (h ((eq_iff s.role "creator").0 e))
  | inr e ↦ rw e (if_either (λ x. x ≡ select_role) (str_eq s.role "") refl refl)
]

role_guard_creator : (s : State) → s.role ≡ "creator" → role_guard "creator" s ≡ page
unfolding role_guard
role_guard_creator s h = rw h refl

-- Who has not the creators' role comes to their page by the passcode only: without an entry with it, whatever
-- else is entered or left, the guard leads to the selection of a role; and right after an entry with it, to the
-- page.
pub on_entries_guarded :
    (b : Browser) (es : List Entry) (st : Store)
    → st.state.role ≢ "creator"
    → All IsPlain es
    → let end = on_entries b es st in
      (role_guard "creator" end.state ≡ select_role)
      × (role_guard "creator" (enter_as_creator b creator_passcode end).state ≡ page)
unfolding enter_as_creator
on_entries_guarded b es st barred plain =
    let end = on_entries b es st in
    (
      role_guard-IsBarred end.state (on_entries-IsBarred b es st plain barred),
      role_guard_creator (enter_as_creator b creator_passcode end).state
          (role-set_role b "creator" "Contest Creator" "" thrown thrown end),
    )
