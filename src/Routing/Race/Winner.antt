-- ===== src/Routing/Race/Winner.antt =====
-- `ResultAggregator.execute` against a specification of the winner of a race.
use iicp_client_python.Prelude.{Option, none, some, List, [], ◌∷◌, if◌then◌else◌, str_eq}
use iicp_client_python.Routing.Race.{
  Response, Finish, responds, fails, Outcome, answer, error_or_failed,
}

-- the first success
unfoldable pub winner : List Finish → Option Response
winner [] = none
winner (fails ∷ order) = winner order
winner (responds response ∷ order) =
    let others = winner order in if str_eq response.status "success" then some response else others

-- the first response of any kind
abbrev pub first_response : List Finish → Option Response
first_response [] = none
first_response (fails ∷ order) = first_response order
first_response (responds response ∷ order) = some response

abbrev pub or_first : Option Response → Option Response → Option Response
or_first none other = other
or_first (some first) other = some first

-- the first success, or else the first error, or else the failure of all
abbrev pub judged : Option Response → Option Response → Outcome
judged (some success) first_error = answer success
judged none first_error = error_or_failed first_error
