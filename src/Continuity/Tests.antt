-- ===== src/Continuity/Tests.antt =====
-- A flow that is paused for the identity 7, with a store in which the browser keeps the values.
use kratos.Base.Find.{find}
use kratos.Base.{true, nat_eq, string_eq, if◌then◌else◌, ◌==◌, ◌∷◌, ◌≡◌, ◌≤◌, ◌*◌, internal}
use kratos.Base.{not_resumable, err, ok, Err, arith, [], List, some, none, false, Bool, refl}
use kratos.Base.{String}
use kratos.Continuity.{Env, State, ManagerOption, ManagerOptions, with_payload, with_identity}
use kratos.Continuity.{with_lifespan, new_manager_options, new_container, pause, container}
use kratos.Continuity.{admitted, decoded, removed, sid, continue, abort, second}
use kratos.Continuity.Cookie.{Store, Values, text, unset_key, persist_values, get_string}
use kratos.Continuity.Table.{Container, is_row, save, get, delete, is_valid_for}
use kratos.Continuity.Resumed.{IsFor, IsNamedBy, continue_lem}
use kratos.Continuity.Once.{continue-pause}
use kratos.Continuity.Cookie.Kept.{IsStore}

abbrev pub jar : Store Values
jar = record {
  get = λ b. b;
  is_new = λ b. false;
  get_error = λ b. none;
  get_exact = λ b test. if test b then ok b else err (internal "no cookie");
  save = λ b vs. ok vs;
}

missed_by :
    (test : Values → Bool) (vs : Values)
    → test vs ≡ false
    → (e : Err) × (jar.get_exact vs test ≡ err e)
missed_by test vs h = (internal "no cookie", rw h refl)

found_by : (test : Values → Bool) (vs : Values) → test vs ≡ true → jar.get_exact vs test ≡ ok vs
found_by test vs h = rw h refl

abbrev jar_keeps : IsStore jar
jar_keeps = record {
  next = λ b vs. vs;
  saves = λ b vs. refl;
  gets = λ b vs. refl;
  is_old = λ b vs. refl;
  finds = λ b vs test h. found_by test vs h;
  misses = λ b vs test h. missed_by test vs h;
}

abbrev pub site : Env String Values
site = record {
  store = jar;
  nid = 3;
  encode = λ p. some p;
  decode = λ t. some t;
  show_uuid = λ id. if id == 9 then "u9" else "u";
  parse_uuid = λ t. if t == "u9" then 9 else 0;
  save_fault = none;
  get_fault = none;
  delete_fault = none;
}

abbrev pub blank : State Values
blank = record { browser = []; table = [] }

abbrev open_ : List (ManagerOption String)
open_ = with_payload "{\"a\":1}" ∷ with_identity (some 7) ∷ with_lifespan (5 * second) ∷ []

abbrev close : List (ManagerOption String)
close = with_payload "{}" ∷ with_identity (some 7) ∷ []

abbrev row : Container
row = record {
  id = 9;
  nid = 3;
  name = "login";
  identity_id = some 7;
  expires_at = 6 * second;
  payload = some "{\"a\":1}";
}

abbrev stored : State Values
stored = record { browser = ("login", text "u9") ∷ []; table = row ∷ [] }

bundle : Unit {0}
unfolding pause continue abort container sid admitted removed new_manager_options new_container
    unset_key persist_values get_string save get delete is_valid_for
bundle = tt

pause_tests : (pause site 9 second blank "login" open_).0 ≡ stored
unfolding bundle
pause_tests = refl

abort_tests : (abort site stored "login").0.table ≡ []
unfolding bundle
abort_tests = refl

continue-pause_example :
    let paused_state = pause site 9 second blank "login" open_ in
    let resumed = continue site (3 * second) paused_state.0 "login" close in
    (paused_state.1 ≡ ok tt)
    × ((c : Container) × (resumed.1 ≡ ok (c, some "{\"a\":1}")))
    × ((continue site (4 * second) resumed.0 "login" []).1 ≡ err not_resumable)
continue-pause_example =
    continue-pause site jar_keeps refl refl refl 9 second (3 * second) (4 * second) 7 (5 * second)
      blank "login" "{\"a\":1}" "{}" "{\"a\":1}" "{}" [] refl refl refl refl refl refl refl
      (omega arith)

resumes : (continue site (3 * second) stored "login" close).1 ≡ ok (row, some "{\"a\":1}")
unfolding bundle
resumes = refl

continue_lem_example :
    (o : ManagerOptions String) × (new_manager_options site close ≡ ok o)
    × (find (is_row 3 9) (row ∷ []) ≡ some row)
    × (IsNamedBy site "login" stored row)
    × (3 * second ≤ 6 * second)
    × (IsFor o.iid row)
    × (decoded site o.payload_raw row.payload ≡ ok (some "{\"a\":1}"))
    × (find (is_row 3 9) (continue site (3 * second) stored "login" close).0.table ≡ none)
continue_lem_example =
    continue_lem site (λ e h. cc) (3 * second) stored "login" close row (some "{\"a\":1}") resumes
