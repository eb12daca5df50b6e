-- ===== src/EventLoop/Actions.antt =====
-- What follows a lifecycle action that the server has accepted.
use iaas_platform.Base.{ℕ, suc, ◌≡◌, ◌⊎◌, some, [], ◌∷◌, ◌++◌, find, ◌==◌, arith}
use iaas_platform.Base.Text.{lit, show}
use iaas_platform.Api.{Fetched, Action, Org, success, settle, bearer, list_instances}
use iaas_platform.Rows.{raw, action_verb}
use iaas_platform.World.{World, Kind, action_done, detail_instances}
use iaas_platform.World.Ops.{push_entry, user_name}
use iaas_platform.Instances.{action_name}
use iaas_platform.EventLoop.{resume}

-- The selected organization is one that is known.
abbrev pub IsSelected : World → Org → Type 0
IsSelected w org =
    (id : ℕ) × (w.state.current_org ≡ some (suc id))
    × (find (λ (o : Org). o.id == suc id) w.state.orgs ≡ some org)

-- The page of the selected organization is loaded anew, if one is selected that is known: its
-- instances are asked for with the token in use.
abbrev pub Reloads : World → World → Type 0
Reloads w w' =
    ((org : Org) × IsSelected w org
      × (w'.pending
          ≡ record {
            requests =
                record {
                  endpoint = list_instances (some org.id);
                  authorization = bearer w.state.token;
                }
                ∷ [];
            task = detail_instances org;
          }
            ∷ w.pending))
    ⊎ ((¬ ((org : Org) × IsSelected w org)) × (w'.pending ≡ w.pending))

-- An action on an instance that the server accepted is reported by a toast, entered first into the
-- activity log, under its past tense, and the page of the selected organization is loaded anew, if
-- one is selected that is known.
pub resume-action_done :
    (a : Action) (id s : ℕ) (f : Fetched (Unit {0})) (w : World)
    → settle f ≡ success s tt
    → let w' = resume (action_done a id) f w in
      (w'.toasts
        ≡ w.toasts
          ++ (record {
            element = w.fresh;
            id = w.now;
            msg = raw (lit "Instance " ++ (action_name a ++ lit " requested"));
            kind = Kind.success;
          }
              ∷ []))
      × (w'.state.activity_log
          ≡ push_entry
              (record {
                id = w.now;
                action = lit "instance." ++ action_name a;
                details =
                    lit "Instance #"
                    ++ (show id ++ (lit " " ++ (action_verb a ++ lit " requested")));
                timestamp = w.now;
                user = user_name w.state.user;
              })
              w.state.activity_log)
      × Reloads w w'
unfolding resume
resume-action_done a id s f w ok = (ground arith, ground arith, ground arith)
