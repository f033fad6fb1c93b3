-- ===== src/Tests/Probe.antt =====
-- A deployment that keeps the contract, and one that answers an anonymous request with a session.
use fastapi_better_auth.Remote.Document.{
  parse_session_document, parsed_pair, session_with, parse_stored_user, user_with, ban_of,
  expiry_of, as_text, as_flag, as_moment, is_absent, with_offset,
}
use fastapi_better_auth.Remote.Probe.Contract.{assert_null_contract}
use fastapi_better_auth.Latches.{new_once}
use fastapi_better_auth.Base.{ℕ, false, suc, true, ◌≡◌, refl}
use fastapi_better_auth.Remote.Probe.Answers.{IsFault, IsAccepted}
use fastapi_better_auth.Remote.Probe.Laws.{first, second, run_probe-IsFault, run_probe_iff}
use fastapi_better_auth.Text.{lit, str_eq, split_on, strip, lower, is_space, is_blank, is_encodable}
use fastapi_better_auth.Errors.{ok, raise, configuration, probe_dead_jar}
use fastapi_better_auth.Remote.Probe.{Transport, State, run_probe, probe_get, translated}
use fastapi_better_auth.Remote.Response.{Body, Response, header, is_json, media_type}
use fastapi_better_auth.Tests.Remote.{fromisoformat, response}

abbrev null_response : Response ℕ
null_response = record { status_code = 200; headers = response.headers; content = Body.null }

abbrev transport_to : Response ℕ → Transport ℕ ℕ
transport_to answer = record {
  get = λ authorization calls. (ok answer, suc calls);
  is_timeout = λ e. false;
  is_too_large = λ e. false;
  is_encoding = λ e. false;
}

abbrev state : State ℕ
state = record { network = 0; advised = new_once }

run_probe_iff_example :
    (run_probe (transport_to null_response) fromisoformat (lit "x") true state).0 ≡ ok tt
unfolding is_json media_type header str_eq split_on strip lower is_space
run_probe_iff_example =
    (run_probe_iff (transport_to null_response) fromisoformat (lit "x") true state).1 (
      null_response,
      refl,
      record { status = refl; media = refl; body = refl },
      IsAccepted.unset null_response refl refl,
    )

refused :
    (run_probe (transport_to response) fromisoformat (lit "x") false state).0
    ≡ raise (configuration probe_dead_jar)
unfolding run_probe probe_get translated assert_null_contract is_json media_type header str_eq
    split_on strip lower is_space parse_session_document parsed_pair session_with parse_stored_user
    user_with ban_of expiry_of as_text as_flag as_moment is_absent with_offset is_blank is_encodable
refused = refl

run_probe-IsFault_example :
    IsFault false
      (first (transport_to response) fromisoformat (lit "x") false state).0
      (second (transport_to response) fromisoformat (lit "x") false state).0
      probe_dead_jar
run_probe-IsFault_example =
    run_probe-IsFault (transport_to response) fromisoformat (lit "x") false state probe_dead_jar
      refused
