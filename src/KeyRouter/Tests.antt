-- ===== src/KeyRouter/Tests.antt =====
-- packages/ws-router and packages/cloudformation-router: runs at concrete inputs.
use middy.Prelude.{ℕ, ◌≡◌, refl, some, List, [], ◌∷◌, Assoc, ok}
use middy.KeyRouter.Ws.{WsRoute, ws_routes}
use middy.KeyRouter.Cloudformation.{CloudformationRoute, cloudformation_routes}

abbrev chat_routes : List (WsRoute ℕ)
chat_routes =
    record { route_key = some "$connect"; handler = 1 }
    ∷ record { route_key = some "send"; handler = 2 }
    ∷ []

abbrev chat_table : Assoc ℕ
chat_table = ("$connect", 1) ∷ ("send", 2) ∷ []

chat_routes_are_entered : ws_routes chat_routes [] ≡ ok chat_table
unfolding ws_routes
chat_routes_are_entered = refl

abbrev stack_routes : List (CloudformationRoute ℕ)
stack_routes =
    record { request_type = "Create"; handler = 1 }
    ∷ record { request_type = "Delete"; handler = 2 }
    ∷ record { request_type = "Create"; handler = 3 }
    ∷ []

abbrev stack_table : Assoc ℕ
stack_table = ("Create", 3) ∷ ("Delete", 2) ∷ []

last_route_wins : cloudformation_routes stack_routes [] ≡ ok stack_table
unfolding cloudformation_routes
last_route_wins = refl
