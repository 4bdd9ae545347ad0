-- ===== src/Seam/Session.antt =====
-- hello and deliverArtifacts of apps/worker/seam.mjs, from what their requests bring. The text of a rejection is
-- left out of the error.
pub mod Stored
use agentmeld.Prelude.{
  String, Bool, true, false, not, ◌||◌, List, [], ◌∷◌, ◌++◌, ◌⊎◌, inl, inr, Option, none, some,
  if◌then◌else◌, ◌==◌, string_eq,
}
use agentmeld.Seam.{Seam, Failure, no_turn, has_turn}
use agentmeld.Seam.Calls.{error_code}

-- A reply with the fields that the two functions read; an absent field of a rejection is `none`.
pub record SessionReply : Type 0 where
  pub msg_type : String
  pub ok : Bool
  pub accepted : Bool
  pub rejection_code : Option String
  pub rejection_message : Option String

-- What sendRequest gives.
abbrev pub Awaited : Type 0
Awaited = Failure ⊎ SessionReply

unfoldable pub hello : Awaited → Awaited
hello (inl e) = inl e
hello (inr r) =
    if not (r.msg_type == "service.session.welcome") || not r.ok
    then inl (record { code = none; message = "handshake rejected" })
    else inr r

-- reply.rejection?.code || 'internal'
unfoldable pub accept_stored : SessionReply → Awaited
accept_stored r =
    if not (r.msg_type == "service.artifacts.stored")
    then inl (record { code = some "internal"; message = "unexpected reply to artifacts.deliver" })
    else if not r.accepted
    then inl (record {
      code = some (error_code r.rejection_code);
      message = "artifact delivery rejected";
    })
    else inr r

-- deliverArtifacts, with what its request brings.
unfoldable pub deliver_artifacts : Seam → Awaited → Awaited
unfolding accept_stored
deliver_artifacts s (inl e) = if has_turn s then inl e else inl no_turn
deliver_artifacts s (inr r) = if has_turn s then accept_stored r else inl no_turn
