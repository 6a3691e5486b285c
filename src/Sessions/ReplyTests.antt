-- ===== src/Sessions/ReplyTests.antt =====
-- Runs of the listings and of the endpoints of the sessions service.
use drive_power.Prelude.{
  ℤ, pos, List, [], ◌∷◌, some, ◌≡◌, refl, arith, inl, select, string_eq, int_eq,
}
use drive_power.Sql.{query_desc, order_by_desc, insert_desc}
use drive_power.Go.{Error, ok, err, null_scan, obj, end, field, str, Request}
use drive_power.Go.Sample.{sample_platform}
use drive_power.Sessions.Model.{Session, Row, Db, Env}
use drive_power.Sessions.Repo.{scan_rows, scan_row, get_sessions_by_user}
use drive_power.Sessions.Service.{StartInput, start_session_from_ocpp, active_sessions}
use drive_power.Sessions.Handlers.{router}
use drive_power.Sessions.Steps.{start, run}
use drive_power.Sessions.History.{IsHistory, get_sessions_by_user-IsHistory}
use drive_power.Sessions.OpenRows.{active_listing_fails_after_start}
use drive_power.Sessions.Fresh.{fresh_database-refuses_starts}
use drive_power.Sessions.Replies.{ReplyAt, start_route, session_callbacks}
use drive_power.Sessions.Tests.{
  fine, row, stations, empty, unfilled, starting, session, opened, opened_ok, absent,
}

abbrev ended : Row ℤ
ended = record row { end_time = some 70; status = "completed" }

abbrev past : Db ℤ
past = record { rows = ended ∷ []; next_id = 2; stations = stations }

abbrev listed : List (Session ℤ)
listed =
    (record {
      id = pos 1;
      user_id = pos 7;
      station_id = "S1";
      connector_id = pos 1;
      status = "completed";
      start_time = 50;
      end_time = 70;
      energy_kwh = pos 0;
      transaction = "T1";
      created_at = 50;
      updated_at = 50;
    })
    ∷ []

listed_ok : get_sessions_by_user fine (pos 7) (pos 10) past ≡ ok listed
unfolding get_sessions_by_user query_desc order_by_desc insert_desc select scan_rows scan_row
listed_ok = refl

get_sessions_by_user-IsHistory_example : IsHistory (pos 7) 10 past listed
get_sessions_by_user-IsHistory_example =
    get_sessions_by_user-IsHistory fine (pos 7) (pos 10) 10 past listed (inl (omega arith, refl))
      listed_ok

active_listing_fails_after_start_example : active_sessions fine (pos 50) opened.1 ≡ err null_scan
active_listing_fails_after_start_example =
    active_listing_fails_after_start fine fine starting empty (session 101) opened.1 absent
      (unfold select in omega arith) opened_ok refl

fresh_database-refuses_starts_example :
    ((run (start fine starting ∷ []) unfilled).db.rows ≡ [])
    × ((env : Env) (input : StartInput)
        → (e : Error) × ((start_session_from_ocpp env input
              (run (start fine starting ∷ []) unfilled)).0
            ≡ err e))
fresh_database-refuses_starts_example =
    fresh_database-refuses_starts (start fine starting ∷ []) unfilled (refl, refl)

abbrev start_request : Request ℤ
start_request = record {
  method = "POST";
  path = "/internal/ocpp/session-start";
  header = [];
  body = some (obj (field "station_id" (str "S1") (field "transaction_id" (str "T1") end)));
}

session_callbacks_example :
    ReplyAt fine start_request empty start_route (router fine start_request empty)
session_callbacks_example = session_callbacks fine start_request empty start_route refl
