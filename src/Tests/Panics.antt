-- ===== src/Tests/Panics.antt =====
-- A handler that panics after a change, and a listing by a role that is none.
use go_with_me.Base.{List, [], ◌∷◌, ◌++◌, ◌≡◌, ◌=ₛ◌, refl, some, none, false, true}
use go_with_me.Models.Roles.{is_role}
use go_with_me.ApiError.{sentinel_value, internal_server}
use go_with_me.World.{World, IsUp}
use go_with_me.Http.{HttpRequest, Response, nobody}
use go_with_me.Http.Answers.{fail_with}
use go_with_me.Http.RequestId.{identified}
use go_with_me.Http.UserHandler
use go_with_me.Http.UserHandler.Unvalidated.{bad_role_internal}
use go_with_me.Http.Routes.{deactivate_user, handle}
use go_with_me.Http.Envelope.{IsReply}
use go_with_me.Http.Envelope.Typed.{handle-IsReply}
use go_with_me.Http.Panics.{LogLine, answers, panics, Chain, request_line, global}
use go_with_me.Http.Panics.Served.{IsEnd, always_answers}
use go_with_me.Tests.{town, libraries, settings}
use go_with_me.Tests.Routes.{server, bindings, with_header}

abbrev removed : World
removed = record town { users = [] }

abbrev crash : Chain
crash r i w = (panics "nil map" none, removed, [])

abbrev request : HttpRequest
request = with_header "Bearer session"

abbrev first_stays : Response → Response → Response
first_stays first second = first

always_answers_example :
    (answer : Response) × (lines : List LogLine) × (global libraries first_stays crash request
        nobody town
      ≡ (
        answers answer,
        removed,
        lines ++ request_line (identified libraries town request) answer 1000 1000 ∷ [],
      ))
    × IsEnd first_stays
        (identified libraries town request)
        (panics "nil map" none, removed, [])
        answer
        lines
always_answers_example = always_answers libraries first_stays crash request nobody town

up : IsUp libraries
up s w = refl

abbrev by_root : HttpRequest
by_root = record request { query = λ name. some "root" }

no_role : is_role "root" ≡ false
unfolding ◌=ₛ◌
no_role = refl

filled : ("root" =ₛ "") ≡ false
unfolding ◌=ₛ◌
filled = refl

bad_role_internal_example :
    UserHandler.list libraries bindings settings (λ s pattern. true) by_root nobody town
    ≡ (fail_with (sentinel_value internal_server), town)
bad_role_internal_example =
    bad_role_internal libraries bindings settings (λ s pattern. true) by_root nobody town "root" up
      refl filled no_role

handle-IsReply_example : IsReply (handle server deactivate_user request town).0
handle-IsReply_example = handle-IsReply server deactivate_user request town
