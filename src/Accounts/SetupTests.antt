-- ===== src/Accounts/SetupTests.antt =====
-- The setup of an empty installation.
use talepanel.Base.{
  String, ◌≡◌, ◌≢◌, refl, is_space, matches, matches_piece, trim_space, to_lower_string,
}
use talepanel.Store.Tables.{User, no_rows}
use talepanel.Store.Exec.{World, ok, statement, query, execute, attempt, transaction}
use talepanel.Store.Sample.{calm}
use talepanel.Roles.Weight.{role_weight, role_owner}
use talepanel.Accounts.Outside.{Outside}
use talepanel.Accounts.Tests.{plain, client, first, next, attacks}
use talepanel.Accounts.Password.{
  validate_password_for_role, email_matches, username_matches, rune_count, has_digit, has_symbol,
}
use talepanel.Accounts.Tokens.{
  full_result, sign_access_token, insert_session, touch_login, open_session, issue_full_tokens,
}
use talepanel.Accounts.Register.{NewUser, insert_user, add_if_accepted, new_user}
use talepanel.Accounts.Setup.{
  complete_setup, unless_users, setup_owner, create_owner, insert_log, check_setup_code,
  normalize_setup_code, hex_decode, setup_code_matches,
}
use talepanel.Accounts.Calls.{run_calls}
use talepanel.Accounts.SetupOnce.{IsSetup, complete_setup-IsSetup, setup_runs_once}

-- Before the setup there is nobody.
abbrev installed : World
installed = record calm { db = no_rows }

abbrev code_hash : String
code_hash = "4142434445464748494a4b4c4d4e4f505152535455565758595a303132333435"

abbrev sealed : Outside
sealed = record plain { digest = λ s. code_hash }

abbrev new_owner : NewUser
new_owner = record { id = 1; salt = "salt" }

abbrev first_owner : User
first_owner = new_user sealed new_owner "root@x.org" "root" "long-enough-1" role_owner 1000

setup_done :
    (complete_setup sealed code_hash new_owner 7 "ABCD-EFGH-JKLM" "root@x.org" "root"
      "long-enough-1" client first installed).0
    ≡ ok (full_result sealed "signed" "t1" first_owner)
unfolding complete_setup unless_users setup_owner transaction create_owner insert_user
    add_if_accepted insert_log check_setup_code normalize_setup_code hex_decode setup_code_matches
    matches matches_piece email_matches username_matches validate_password_for_role rune_count
    has_digit has_symbol issue_full_tokens open_session sign_access_token insert_session touch_login
    query execute attempt statement trim_space to_lower_string is_space role_weight
setup_done = refl

complete_setup-IsSetup_example :
    IsSetup sealed new_owner 7 "long-enough-1" client first code_hash "ABCD-EFGH-JKLM" installed.db
      (complete_setup sealed code_hash new_owner 7 "ABCD-EFGH-JKLM" "root@x.org" "root"
        "long-enough-1" client first installed).1.db
complete_setup-IsSetup_example =
    complete_setup-IsSetup sealed new_owner 7 "long-enough-1" client first code_hash
      "ABCD-EFGH-JKLM" "root@x.org" "root" installed (full_result sealed "signed" "t1" first_owner)
      setup_done

abbrev set_up : World
set_up =
    run_calls sealed attacks
      (complete_setup sealed code_hash new_owner 7 "ABCD-EFGH-JKLM" "root@x.org" "root"
        "long-enough-1" client first installed).1

abbrev intruder : NewUser
intruder = record { id = 2; salt = "pepper" }

setup_runs_once_example :
    ((complete_setup sealed code_hash intruder 8 "ABCD-EFGH-JKLM" "eve@x.org" "eve" "long-enough-2"
        client next set_up).0
      ≢ ok (full_result sealed "signed" "t2" first_owner))
    × ((complete_setup sealed code_hash intruder 8 "ABCD-EFGH-JKLM" "eve@x.org" "eve"
          "long-enough-2" client next set_up).1.db
        ≡ set_up.db)
setup_runs_once_example =
    setup_runs_once sealed new_owner intruder 7 8 code_hash "ABCD-EFGH-JKLM" code_hash
      "ABCD-EFGH-JKLM" "root@x.org" "root" "long-enough-1" "eve@x.org" "eve" "long-enough-2" client
      client first next attacks installed set_up (full_result sealed "signed" "t1" first_owner)
      (full_result sealed "signed" "t2" first_owner) setup_done refl

setup-wrong_code :
    (complete_setup sealed code_hash new_owner 7 "ABCD" "root@x.org" "root" "long-enough-1" client
      first installed).1.db
    ≡ no_rows
unfolding complete_setup unless_users check_setup_code normalize_setup_code hex_decode
    setup_code_matches matches matches_piece query statement is_space
setup-wrong_code = refl
