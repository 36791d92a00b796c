-- ===== src/Http/Envelope/Typed.antt =====
-- Every route answers with standard responses.
use go_with_me.Base.{refl, inl}
use go_with_me.World.{World}
use go_with_me.Http.{HttpRequest, nobody}
use go_with_me.Http.RequestId.{identified}
use go_with_me.Http.Routes.{Server, Route, endpoint, handle}
use go_with_me.Http.Envelope.{IsReply}
use go_with_me.Http.Envelope.Replies.{Replies}
use go_with_me.Http.Envelope.Handlers.{reply_rules}

module _ (s : Server) where
  endpoint-Replies : (route : Route) → Replies (endpoint s route)
  endpoint-Replies Route.health = record { at = λ r i w. inl refl }
  endpoint-Replies Route.ready = record { at = λ r i w. inl refl }
  endpoint-Replies Route.login = search reply_rules
  endpoint-Replies Route.forgot_password = search reply_rules
  endpoint-Replies Route.verify_reset_email = search reply_rules
  endpoint-Replies Route.accept_invite = search reply_rules
  endpoint-Replies Route.verify_totp = search reply_rules
  endpoint-Replies Route.setup_totp = search reply_rules
  endpoint-Replies Route.confirm_totp = search reply_rules
  endpoint-Replies Route.complete_password_reset = search reply_rules
  endpoint-Replies Route.me = search reply_rules
  endpoint-Replies Route.list_users = search reply_rules
  endpoint-Replies Route.get_user = search reply_rules
  endpoint-Replies Route.update_user = search reply_rules
  endpoint-Replies Route.invite_user = search reply_rules
  endpoint-Replies Route.deactivate_user = search reply_rules

  -- Every response of every route is well typed: a success is a 200, a 201 or a 204, and a failure has
  -- one of the error codes, with the status that belongs to it, whatever the services, the database
  -- and the libraries do.
  pub handle-IsReply :
      (route : Route) (r : HttpRequest) (w : World) → IsReply (handle s route r w).0
  unfolding handle
  handle-IsReply route r w = (endpoint-Replies route).at (identified s.env w r) nobody w
