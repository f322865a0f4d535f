-- ===== src/Monitor/Socket.antt =====
-- The messages on the websockets of MonitorData and the requests to it, as events, and what holds of
-- its arrays after any events.
use de_pipeline_tool.Prelude.{
  ℕ, ◌+◌, replicate, map, String, Bool, List, [], ◌∷◌, ◌++◌, Option, none, some, ◌≡◌, refl, sym,
  subst, if◌then◌else◌, arith, Outcome, done, thrown, state_of,
}
use de_pipeline_tool.Monitor.Apps.{App, systems_of}
use de_pipeline_tool.Monitor.Window.{
  IsWindow, tuple_entries, Stats, add_stats, time_label, add_stats-slide,
}
use de_pipeline_tool.Monitor.Cpu.{IsPaired, Usage, add_usages, add_usages-IsPaired}
use de_pipeline_tool.Monitor.Start.{
  Descriptor, Request, system_descriptors, app_list, Monitor, has_text, start, start-IsPaired,
  start-IsWindow,
}

-- An element of an array that comes in: a descriptor, an application of the cluster, or the name of
-- a log. The id is the empty text where there is none.
pub record Element : Type 0 where
  pub id : String
  pub name : String
  pub has_cluster : Bool

pub data Message : Type 0 where
  object : Option Stats → Option (List Usage) → Message
  array : List Element → Message

abbrev descriptor_of : Element → Option Descriptor
descriptor_of e = some (record { name = e.name; uuid = e.id })

unfoldable pub receive_descriptors : List Element → Monitor → Monitor
receive_descriptors es m = record m {
  descriptors = map descriptor_of es;
  desc_names = m.desc_names ++ map (λ e. e.name) es;
  sent = m.sent ++ app_list ∷ [];
  refreshes = m.refreshes + 1;
}

-- The last test reads the first element, which an empty array does not have.
unfoldable pub receive_array : List Element → Monitor → Outcome Monitor
receive_array [] m = thrown m
receive_array (e ∷ es) m = done (
    if has_text e.id
    then receive_descriptors (e ∷ es) m
    else if e.has_cluster
    then m
    else record m { log_names = map (λ x. some x.name) (e ∷ es) })

unfoldable pub receive_object : String → Option Stats → Option (List Usage) → Monitor → Monitor
receive_object label stats usages m = record m {
  charts = elim stats [ none ↦ m.charts | some st ↦ add_stats st label m.charts ];
  bars = elim usages [ none ↦ m.bars | some us ↦ add_usages us m.bars ];
}

-- `ws.onMessage`, at the time that the label shows.
unfoldable pub receive : String → Message → Monitor → Outcome Monitor
receive label (object stats usages) m = done (receive_object label stats usages m)
receive label (array es) m = receive_array es m

-- `getAppListSocket.onMessage`
unfoldable pub receive_apps : List App → Monitor → Monitor
receive_apps apps m = record m {
  systems = map (λ s. some s) (systems_of m.desc_names apps);
  refreshes = m.refreshes + 1;
}

-- `getAppList`
unfoldable pub get_app_list : Monitor → Monitor
get_app_list m = record m { sent = m.sent ++ system_descriptors ∷ [] }

pub data Event : Type 0 where
  message : (minutes seconds : ℕ) → Message → Event
  apps : List App → Event
  ask : Event
  monitor : String → Event
  tick : Request → Event

unfoldable pub handle : Event → Monitor → Outcome Monitor
handle (message minutes seconds msg) m = receive (time_label minutes seconds) msg m
handle (apps as_given) m = done (receive_apps as_given m)
handle ask m = done (get_app_list m)
handle (monitor app) m = done (start app m)
handle (tick request) m = done (record m { sent = m.sent ++ request ∷ [] })

-- A throw ends the handler of one event; the next finds the state as it was left.
unfoldable pub handle_all : List Event → Monitor → Monitor
handle_all [] m = m
handle_all (e ∷ es) m = handle_all es (state_of (handle e m))

-- The arrays as they are made.
abbrev pub fresh : Monitor
fresh = record {
  app_id = "";
  charts = record {
    processed = replicate tuple_entries none;
    emitted = replicate tuple_entries none;
    labels = replicate tuple_entries (some "");
  };
  bars = record { labels = []; values = [] };
  systems = [];
  descriptors = [];
  log_names = [];
  desc_names = [];
  intervals = [];
  sent = [];
  refreshes = 0;
}

-- The arrays of the charts fit together.
pub record IsDrawable (m : Monitor) : Type 0 where
  pub window : IsWindow m.charts
  pub paired : IsPaired m.bars

receive_object-IsDrawable :
    (label : String) (stats : Option Stats) (usages : Option (List Usage)) (m : Monitor)
    → IsDrawable m
    → IsDrawable (receive_object label stats usages m)
unfolding receive_object
receive_object-IsDrawable label none none m h = h
receive_object-IsDrawable label (some st) none m h = record {
  window = (add_stats-slide st label m.charts h.window).1;
  paired = h.paired;
}
receive_object-IsDrawable label none (some us) m h = record {
  window = h.window;
  paired = add_usages-IsPaired us m.bars h.paired;
}
receive_object-IsDrawable label (some st) (some us) m h = record {
  window = (add_stats-slide st label m.charts h.window).1;
  paired = add_usages-IsPaired us m.bars h.paired;
}

receive_array-keeps :
    (es : List Element) (m : Monitor)
    → ((state_of (receive_array es m)).charts ≡ m.charts)
      × ((state_of (receive_array es m)).bars ≡ m.bars)
unfolding receive_array receive_descriptors
receive_array-keeps [] m = (refl, refl)
receive_array-keeps (e ∷ es) m = ground arith

start-IsDrawable : (app : String) (m : Monitor) → IsDrawable m → IsDrawable (start app m)
start-IsDrawable app m h = record {
  window = start-IsWindow app m h.window;
  paired = start-IsPaired app m h.paired;
}

handle-IsDrawable : (e : Event) (m : Monitor) → IsDrawable m → IsDrawable (state_of (handle e m))
unfolding handle receive receive_apps get_app_list
handle-IsDrawable (message minutes seconds (object stats usages)) m h =
    receive_object-IsDrawable (time_label minutes seconds) stats usages m h
handle-IsDrawable (message minutes seconds (array es)) m h =
    let (charts, bars) = receive_array-keeps es m in
    record {
      window = subst IsWindow (sym charts) h.window;
      paired = subst IsPaired (sym bars) h.paired;
    }
handle-IsDrawable (apps as_given) m h = record { window = h.window; paired = h.paired }
handle-IsDrawable ask m h = record { window = h.window; paired = h.paired }
handle-IsDrawable (monitor app) m h = start-IsDrawable app m h
handle-IsDrawable (tick request) m h = record { window = h.window; paired = h.paired }

-- After any events, also where a handler threw, the three arrays of the window have one length,
-- which is twenty or more, and there are as many names as values of the bars.
pub handle_all-IsDrawable :
    (es : List Event) (m : Monitor) → IsDrawable m → IsDrawable (handle_all es m)
unfolding handle_all
handle_all-IsDrawable [] m h = h
handle_all-IsDrawable (e ∷ es) m h =
    handle_all-IsDrawable es (state_of (handle e m)) (handle-IsDrawable e m h)
