-- ===== src/Broker/Logged.antt =====
-- src/threads/mqtt/broker.cpp: how the entries of a broker's log are printed.
pub mod Lines
pub mod Headers
use octopusmq_cpp.Base.{Bool, List, [], ◌∷◌, ◌++◌, if◌then◌else◌, Text, codes, is_empty}
use octopusmq_cpp.Error.{Result, returns, throws}
use octopusmq_cpp.Network.{NetworkEvent}
use octopusmq_cpp.Network.Addresses.{Inet, to_string}
use octopusmq_cpp.Log.{info, error, Log, Printing, printed, raised, ◌>>=◌, print, print_event}
use octopusmq_cpp.Log.Sizes.{size_to_string}
use octopusmq_cpp.Broker.{
  Action, connect, connack, puback, pubrec, pubrel, pubcomp, subscribe, suback, unsubscribe,
  unsuback, pingreq, pingresp, disconnect, publish, Entry, event, closed, failed,
}

-- `packet_names`.
unfoldable pub action_text : Action → Text
action_text connect = codes "connect"
action_text connack = codes "connack"
action_text puback = codes "puback"
action_text pubrec = codes "pubrec"
action_text pubrel = codes "pubrel"
action_text pubcomp = codes "pubcomp"
action_text subscribe = codes "subscribe"
action_text suback = codes "suback"
action_text unsubscribe = codes "unsubscribe"
action_text unsuback = codes "unsuback"
action_text pingreq = codes "pingreq"
action_text pingresp = codes "pingresp"
action_text disconnect = codes "disconnect"
action_text (publish size) = codes "publish (" ++ size_to_string size ++ codes ")"

-- `message` of the error handler, but for the name of the adapter.
abbrev pub failure_text : (what address client_id : Text) → Text
failure_text what address client_id =
    what
    ++ codes " at "
    ++ address
    ++ (if is_empty client_id then [] else codes " (" ++ client_id ++ codes ").")

abbrev pub print_failure : (name what client_id : Text) → Result Text → Log → Printing
print_failure name what client_id (throws e) l = raised e l
print_failure name what client_id (returns address) l =
    print error (name ++ (codes ": " ++ failure_text what address client_id)) l

-- `name` is that of the settings of the adapter.
unfoldable pub print_entry : Inet → (name : Text) → Entry → Log → Printing
print_entry inet name (event address client_id dir action) l =
    print_event inet name address client_id dir (action_text action) l
print_entry inet name closed l = print info (name ++ codes ": connection closed.") l
print_entry inet name (failed what address client_id) l =
    print_failure name what client_id (to_string inet address) l

unfoldable pub print_entries : Inet → Text → List Entry → Log → Printing
print_entries inet name [] l = printed l
print_entries inet name (e ∷ es) l = print_entry inet name e l >>= λ m. print_entries inet name es m

-- The error handler of the server, which says nothing where an operation was cancelled.
unfoldable pub print_server_error : (cancelled : Bool) → (message : Text) → Log → Printing
print_server_error cancelled message l = if cancelled then printed l else print error message l
