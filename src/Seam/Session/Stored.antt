-- ===== src/Seam/Session/Stored.antt =====
-- A delivery across the seam: deliverArtifacts of apps/worker/seam.mjs against onArtifactsDeliver of
-- apps/poc/supervisor.mjs.
use agentmeld.Prelude.{
  String, Bool, true, false, List, [], ◌∷◌, ◌++◌, inl, inr, Option, none, some, if◌then◌else◌,
  string_eq, ◌≡◌, refl, ap, ◌∙◌, arith,
}
use agentmeld.Data.{File, Task}
use agentmeld.Supervisor.{
  Turn, Env, Manifest, Frame, Reply, artifacts_stored, artifacts_rejected, service_error,
  send_frame,
}
use agentmeld.Supervisor.Artifacts.{
  Checked, entries, refuse, check_manifest, receipt, on_artifacts_deliver,
}
use agentmeld.Seam.{Seam, Failure, has_turn}
use agentmeld.Seam.Calls.{error_code}
use agentmeld.Seam.Session.{Awaited, accept_stored, deliver_artifacts}

-- A reply as the worker's request meets it: service.error rejects the request.
unfoldable pub read_stored : Reply → Awaited
read_stored (artifacts_stored digest files) = inr (record {
  msg_type = "service.artifacts.stored";
  ok = false;
  accepted = true;
  rejection_code = none;
  rejection_message = none;
})
read_stored (artifacts_rejected code message) = inr (record {
  msg_type = "service.artifacts.stored";
  ok = false;
  accepted = false;
  rejection_code = some code;
  rejection_message = some message;
})
read_stored (service_error code message) =
    inl (record { code = some (error_code (some code)); message = message })
read_stored _ = inr (record {
  msg_type = "";
  ok = false;
  accepted = false;
  rejection_code = none;
  rejection_message = none;
})

-- The reply to the request, which is the last frame.
unfoldable pub last_reply : List Frame → Awaited
unfolding read_stored
last_reply [] = inl (record { code = none; message = "ack timeout" })
last_reply (f ∷ []) = read_stored f.body
last_reply (f ∷ g ∷ fs) = last_reply (g ∷ fs)

last_reply-append : (fs : List Frame) (f : Frame) → last_reply (fs ++ f ∷ []) ≡ read_stored f.body
unfolding last_reply
last_reply-append [] f = refl
last_reply-append (g ∷ []) f = refl
last_reply-append (g ∷ h ∷ fs) f = last_reply-append (h ∷ fs) f

abbrev pub resolves : Awaited → Bool
resolves (inl e) = false
resolves (inr r) = true

abbrev pub rejection : String → Failure
rejection code = record {
  code = some (error_code (some code));
  message = "artifact delivery rejected";
}

-- The promise of a delivery, and the task that the service has after it, for each outcome of the manifest's tests.
unfoldable pub Agrees : Bool → Awaited → Task → Task → Checked → Type 0
Agrees saved o old new (refuse code message) = (o ≡ inl (rejection code)) × (new ≡ old)
Agrees true o old new (entries files) =
    (resolves o ≡ true) × (new ≡ record old { artifacts = old.artifacts ++ files })
Agrees false o old new (entries files) =
    (o ≡ inl (rejection "internal")) × (new ≡ record old { artifacts = old.artifacts ++ files })

module _ (env : Env) (reply : Option String) (t : Turn) (s : Seam) (h : has_turn s ≡ true) where
  -- The promise of a delivery.
  abbrev pub outcome : Turn → Awaited
  outcome t' = deliver_artifacts s (last_reply t'.sent)

  outcome-send :
      (r : Reply) (t' : Turn)
      → outcome (send_frame reply r t') ≡ deliver_artifacts s (read_stored r)
  outcome-send r t' =
      ap (deliver_artifacts s)
        (last_reply-append t'.sent (record { in_reply_to = reply; body = r }))

  deliver-rejected :
      (code message : String)
      → deliver_artifacts s (read_stored (artifacts_rejected code message)) ≡ inl (rejection code)
  unfolding deliver_artifacts read_stored accept_stored
  deliver-rejected code message = ground (arith, h)

  deliver-stored :
      (digest : String) (files : List (String × String))
      → resolves (deliver_artifacts s (read_stored (artifacts_stored digest files))) ≡ true
  unfolding deliver_artifacts read_stored accept_stored
  deliver-stored digest files = ground (arith, h)

  abbrev kept : List File → Turn
  kept files = record t { task = record t.task { artifacts = t.task.artifacts ++ files } }

  -- The service's part, after the manifest's tests.
  answered : Option Manifest → Bool → Checked → Turn
  answered m saved c = elim c [
    | refuse code message ↦ send_frame reply (artifacts_rejected code message) t
    | entries files ↦
        if saved
        then send_frame reply (receipt m) (kept files)
        else send_frame reply (artifacts_rejected "internal" "artifact delivery failed")
            (kept files)
  ]

  answered-Agrees :
      (m : Manifest) (saved : Bool) (c : Checked)
      → Agrees saved (outcome (answered (some m) saved c)) t.task (answered (some m) saved c).task c
  unfolding answered Agrees
  answered-Agrees m saved (refuse code message) =
      (outcome-send (artifacts_rejected code message) t ∙ deliver-rejected code message, refl)
  answered-Agrees m true (entries files) =
      (ap resolves (outcome-send (receipt (some m)) (kept files)) ∙ deliver-stored _ _, refl)
  answered-Agrees m false (entries files) = (
    outcome-send (artifacts_rejected "internal" "artifact delivery failed") (kept files)
        ∙ deliver-rejected "internal" "artifact delivery failed",
    refl,
  )

-- A delivery in a turn that is active, for each outcome of the service's tests. If they refuse the manifest, the
-- worker's promise rejects with the refusal's code and the task stays as it was. If they take it, the task's artifacts
-- are those from before and then the manifest's files, and the worker's promise resolves if the service could
-- save, and otherwise rejects with the code internal.
pub deliver_artifacts-Agrees :
    (env : Env) (reply : Option String) (m : Manifest) (t : Turn) (s : Seam)
    → has_turn s ≡ true
    → Agrees env.saved
        (deliver_artifacts s (last_reply (on_artifacts_deliver env reply (some m) t).sent))
        t.task
        (on_artifacts_deliver env reply (some m) t).task
        (check_manifest env (some m))
unfolding on_artifacts_deliver answered check_manifest
deliver_artifacts-Agrees env reply m t s h =
    answered-Agrees env reply t s h m env.saved (check_manifest env (some m))
