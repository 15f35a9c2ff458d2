-- ===== src/Case/Spec/Publish.antt =====
-- What is published on a Case: publish_artifact, publish_spec and list_dag_tasks of
-- src/control/db.py. The flag SPEC_AUTHORING_ENABLED is an argument.
use ai_team.Prelude.{
  ℕ, String, Bool, not, Option, none, some, List, [], ◌∷◌, ◌++◌, if◌then◌else◌, or_else,
}
use ai_team.Case.{task, artifact, artifact_published, spec_authored, blank, FlowLink, Ledger}
use ai_team.Case.Flow.{create_flow_link, append_flow_event, update_flow_stage, list_flow_links}

-- `if title is not None`
abbrev pub entry_of_text : String → Option String → List (String × String)
entry_of_text key none = []
entry_of_text key (some v) = (key, v) ∷ []

pub record Published : Type 0 where
  pub link_id : ℕ
  pub event_id : ℕ

-- `none` is the answer {"ok": False, "reason": "spec_authoring_disabled"}. The keys of `metadata` come
-- after those of the call, as in `link_meta.update(metadata)`.
unfoldable pub publish_artifact :
    (enabled : Bool) (now : ℕ) (flow_run_id artifact_id kind : String) (title uri : Option String)
    (actor : String) (metadata : List (String × String))
    → Ledger
    → Ledger × Option Published
publish_artifact enabled now flow_run_id artifact_id kind title uri actor metadata l =
    if not enabled
    then (l, none)
    else let (linked, link_id) =
        create_flow_link now flow_run_id artifact artifact_id kind (some actor) none []
          (("kind", kind) ∷ entry_of_text "title" title ++ entry_of_text "uri" uri ++ metadata) l in
      let (noted, event_id) =
        append_flow_event now flow_run_id artifact_published actor none none (some artifact)
          (some artifact_id)
          (some (record blank {
            rest =
                ("artifact_id", artifact_id)
                ∷ ("kind", kind)
                ∷ ("title", or_else title "null")
                ∷ ("uri", or_else uri "null")
                ∷ [];
          }))
          linked in
      (noted, some (record { link_id = link_id; event_id = event_id }))

unfoldable pub publish_spec :
    (enabled : Bool) (now : ℕ) (flow_run_id spec_id spec_body : String) (title : Option String)
    (actor : String)
    → Ledger
    → Ledger × Option Published
unfolding publish_artifact
publish_spec enabled now flow_run_id spec_id spec_body title actor l =
    let (published, answer) =
      publish_artifact enabled now flow_run_id spec_id "spec" title none actor
        (("body", spec_body) ∷ []) l in
    elim answer [
      | none ↦ (published, none)
      | some p ↦
          let (authored, event_id) =
            append_flow_event now flow_run_id spec_authored actor none none (some artifact)
              (some spec_id)
              (some (record blank {
                rest = ("spec_id", spec_id) ∷ ("title", or_else title "null") ∷ [];
              }))
              published in
          (
            update_flow_stage now flow_run_id "spec_authoring" authored,
            some (record p { event_id = event_id }),
          )
    ]

-- The links of the planned tasks; their objective and their edges are columns of the link here.
unfoldable pub list_dag_tasks : String → Ledger → List FlowLink
list_dag_tasks flow_run_id l =
    list_flow_links (some flow_run_id) (some task) none (some "task_attached") 200 l
