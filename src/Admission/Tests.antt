-- ===== src/Admission/Tests.antt =====
-- Runs of the admission table on concrete tickets.
use iicp_client_python.Prelude.{refl, arith, ◌≡◌, true, false, String, List, [], ◌∷◌}
use iicp_client_python.Prelude.Dict
use iicp_client_python.Admission.{Claim, consume, completed, precheck, valid_jti, redeem}
use iicp_client_python.Admission.SingleUse.{
  accepts, Call, consumes, moves, cleans, run, single_redemption,
}

abbrev claim : Claim
claim = record {
  jti = "ticket-0123456789abcdef";
  provider_id = "node-a";
  intent = "chat";
  not_before = 100;
  expires_at = 160;
}

abbrev digest : String → String
digest s = s

abbrev between : List Call
between =
    moves false "ticket-0123456789abcdef" completed 130
    ∷ consumes true claim "node-a" "chat" 140 5
    ∷ cleans false 150 30 10
    ∷ []

-- a first redemption at 120 with a skew of 5
first_accepted : accepts (consume digest false claim "node-a" "chat" 120 5 []).0 ≡ true
unfolding consume precheck valid_jti redeem Dict.get
first_accepted = refl

single_redemption_example :
    accepts
      (consume digest false claim "node-a" "chat" 155 5
        (run digest (consume digest false claim "node-a" "chat" 120 5 []).1 between)).0
    ≡ false
single_redemption_example =
    single_redemption digest false claim "node-a" "chat" 120 5 5 [] between false "node-a" "chat"
      155 5 tt first_accepted (omega arith, tt, (omega arith, tt, (omega arith, omega arith, tt)))
      (omega arith) (omega arith)
