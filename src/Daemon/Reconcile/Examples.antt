-- ===== src/Daemon/Reconcile/Examples.antt =====
-- A YurtAppDaemon and a server without histories, for the theorems about revisions and Reconcile.
use yurt_app_manager.Prelude.{pos, ℕ, ◌+◌, true, false, none, some, [], Error, ok, err, ◌≡◌, refl}
use yurt_app_manager.AppSet.Revision.{ControllerRevision, History}
use yurt_app_manager.AppSet.Construct.{construct_yurt_app_set_revisions}
use yurt_app_manager.Daemon.Manage.{YurtAppDaemon}
use yurt_app_manager.Daemon.Revision
use yurt_app_manager.Daemon.Revision.{
  clean_from, clean_expired_revision, create_from, new_revision, settle_revision, construct_from,
  construct_yurt_app_daemon_revisions,
}
use yurt_app_manager.Daemon.Revision.SameAsSet.{
  api_of, set_of, construct_yurt_app_daemon_revisions_same,
}

abbrev first_revision : ControllerRevision
first_revision = record {
  name = "a";
  namespace = "default";
  revision = 1;
  labels = none;
  raw = "patch";
}

-- The world counts the calls that change it.
abbrev revisions_api : Revision.Api ℕ
revisions_api = record {
  controlled_histories = λ yad n. (ok [], n);
  create = λ revision n. (none, n + 1);
  get = λ namespace name n. (err Error.not_found, n);
  update = λ revision n. (none, n + 1);
  delete = λ revision n. (none, n + 1);
  get_yurt_app_daemon_patch = λ yad. ok "patch";
}

abbrev plain_history : History
plain_history = record {
  sort_controller_revisions = λ revisions. revisions;
  find_equal_revisions = λ revisions revision. [];
  equal_revision = λ a b. false;
  name_at = λ name revision count. "a";
  new_controller_revision = λ name labels patch revision count.
      ok (record { name = ""; namespace = ""; revision = revision; labels = none; raw = patch });
}

abbrev sets_daemon : YurtAppDaemon
sets_daemon = record {
  name = "daemon";
  namespace = "default";
  generation = 1;
  deleting = false;
  has_stateful_set_template = true;
  has_deployment_template = false;
  stateful_set_labels = none;
  deployment_labels = none;
  revision_history_limit = some (pos 10);
  status = record {
    observed_generation = 0;
    collision_count = none;
    current_revision = "";
    conditions = [];
    template_type = "";
    node_pools = none;
  };
}

construct_yurt_app_daemon_revisions_same_example :
    construct_yurt_app_daemon_revisions revisions_api plain_history 1 sets_daemon 0
    ≡ construct_yurt_app_set_revisions
        (api_of revisions_api sets_daemon)
        plain_history
        1
        (set_of sets_daemon)
        0
construct_yurt_app_daemon_revisions_same_example =
    construct_yurt_app_daemon_revisions_same revisions_api plain_history 1 sets_daemon 0 refl
