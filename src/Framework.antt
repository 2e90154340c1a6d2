-- ===== src/Framework.antt =====
-- pkg/framework/kubescheduler.go: the state of a simulation that all simulators share, and its
-- options. `W` is the state of the outside, `H` the type of the hooks that a simulator registers.
pub mod Admission
pub mod Control
pub mod InitObjects
pub mod Scheduler
mod Tests
use kluster_capacity.Base.{String, Bool, true, false, List, [], ◌∷◌, Option, none, some}
use kluster_capacity.Base.Monad.{Action}
use kluster_capacity.Status.{Status, empty_status}

-- kubeschedulerconfig.PluginSet, by the plugins' names.
pub record PluginSet : Type 0 where
  pub enabled : List String
  pub disabled : List String

abbrev pub no_plugins : PluginSet
no_plugins = record { enabled = []; disabled = [] }

-- What the options set. `none` for `exclude_nodes` is the nil set.
pub record Settings (W H : Type 0) : Type 0 where
  pub exclude_nodes : Option (List String)
  pub with_scheduled_pods : Bool
  pub with_node_images : Bool
  pub ignore_pods_on_excludes_node : Bool
  pub with_terminating_pods : Bool
  pub out_of_tree_registry : Option (List String)
  pub custom_bind : PluginSet
  pub custom_pre_bind : PluginSet
  pub custom_post_bind : PluginSet
  pub custom_event_handlers : List (W → W)
  pub post_bind_hook : Option H
  pub save_to : String

-- A channel is known by whether it is closed.
pub record Framework (W H : Type 0) : Type 0 where
  pub settings : Settings W H
  pub open settings use *
  pub world : W
  pub informer_ch : Bool
  pub scheduler_ch : Bool
  pub stop_ch : Bool
  pub stopped : Bool
  pub status : Status

module _ {W H : Type 0} where
  abbrev pub with_exclude_nodes : List String → Settings W H → Settings W H
  with_exclude_nodes names s = record s { exclude_nodes = some names }

  abbrev pub with_out_of_tree_registry : List String → Settings W H → Settings W H
  with_out_of_tree_registry registry s = record s { out_of_tree_registry = some registry }

  abbrev pub with_custom_bind : PluginSet → Settings W H → Settings W H
  with_custom_bind plugins s = record s { custom_bind = plugins }

  abbrev pub with_custom_pre_bind : PluginSet → Settings W H → Settings W H
  with_custom_pre_bind plugins s = record s { custom_pre_bind = plugins }

  abbrev pub with_custom_post_bind : PluginSet → Settings W H → Settings W H
  with_custom_post_bind plugins s = record s { custom_post_bind = plugins }

  abbrev pub with_custom_event_handlers : List (W → W) → Settings W H → Settings W H
  with_custom_event_handlers handlers s = record s { custom_event_handlers = handlers }

  abbrev pub with_node_images : Bool → Settings W H → Settings W H
  with_node_images with' s = record s { with_node_images = with' }

  abbrev pub with_scheduled_pods : Bool → Settings W H → Settings W H
  with_scheduled_pods with' s = record s { with_scheduled_pods = with' }

  abbrev pub with_ignore_pods_on_excludes_node : Bool → Settings W H → Settings W H
  with_ignore_pods_on_excludes_node with' s = record s { ignore_pods_on_excludes_node = with' }

  abbrev pub with_post_bind_hook : H → Settings W H → Settings W H
  with_post_bind_hook hook s = record s { post_bind_hook = some hook }

  abbrev pub with_save_to : String → Settings W H → Settings W H
  with_save_to to s = record s { save_to = to }

  abbrev pub with_terminating_pods : Bool → Settings W H → Settings W H
  with_terminating_pods with' s = record s { with_terminating_pods = with' }

  abbrev pub default_settings : Settings W H
  default_settings = record {
    exclude_nodes = none;
    with_scheduled_pods = true;
    with_node_images = true;
    ignore_pods_on_excludes_node = false;
    with_terminating_pods = true;
    out_of_tree_registry = none;
    custom_bind = no_plugins;
    custom_pre_bind = no_plugins;
    custom_post_bind = no_plugins;
    custom_event_handlers = [];
    post_bind_hook = none;
    save_to = "";
  }

  -- `for _, option := range options { option(s) }`
  abbrev pub apply_options : List (Settings W H → Settings W H) → Settings W H → Settings W H
  apply_options [] s = s
  apply_options (option ∷ options) s = apply_options options (option s)

  -- The struct that `NewKubeSchedulerFramework` builds, with its options applied.
  unfoldable pub start : W → List (Settings W H → Settings W H) → Framework W H
  start w options = record {
    settings = apply_options options default_settings;
    world = w;
    informer_ch = false;
    scheduler_ch = false;
    stop_ch = false;
    stopped = false;
    status = empty_status;
  }

  -- A call on the outside, from a method of the framework.
  abbrev pub on_world : {A : Type 0} → Action W A → Action (Framework W H) A
  on_world m f = let (r, w) = m f.world in (r, record f { world = w })
