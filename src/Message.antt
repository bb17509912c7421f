-- ===== src/Message.antt =====
-- src/network/message.hpp and src/network/message.cpp, class `message`.
use octopusmq_cpp.Base.{ℕ, [], Text}
use octopusmq_cpp.Network.{Version}
use octopusmq_cpp.Platform.{Platform}

pub record Message (p : Platform) : Type 0 where
  pub payload : Text
  pub topic : Text
  pub origin_client_id : Text
  pub mqtt_version : Version
  pub origin_pubopts : ℕ
  pub origin_props : p.Props

module _ (p : Platform) where
  -- `message(payload, topic, pubopts, version, props)`; the origin stays empty.
  unfoldable pub published : Text → Text → ℕ → Version → p.Props → Message p
  published payload topic pubopts version props = record {
    payload = payload;
    topic = topic;
    origin_client_id = [];
    mqtt_version = version;
    origin_pubopts = pubopts;
    origin_props = props;
  }

  -- The other constructors leave fields indeterminate: these keep what `before` has.
  unfoldable pub of_payload : Text → Message p → Message p
  of_payload payload before = record before {
    payload = payload;
    topic = [];
    origin_client_id = [];
    origin_props = p.no_props;
  }

  unfoldable pub of_client : Text → Text → Message p → Message p
  of_client payload origin_client_id before = record (of_payload payload before) {
    origin_client_id = origin_client_id;
    origin_pubopts = 0;
  }

  unfoldable pub of_pubopts : Text → ℕ → Message p → Message p
  of_pubopts payload pubopts before = record (of_payload payload before) {
    origin_pubopts = pubopts;
  }

  unfoldable pub set_payload : Text → Message p → Message p
  set_payload payload m = record m { payload = payload }

  unfoldable pub set_topic : Text → Message p → Message p
  set_topic topic m = record m { topic = topic }

  unfoldable pub set_origin : Text → Message p → Message p
  set_origin origin_client_id m = record m { origin_client_id = origin_client_id }

  unfoldable pub set_pubopts : ℕ → Message p → Message p
  set_pubopts pubopts m = record m { origin_pubopts = pubopts }

  unfoldable pub set_props : p.Props → Message p → Message p
  set_props props m = record m { origin_props = props }

  unfoldable pub set_mqtt_version : Version → Message p → Message p
  set_mqtt_version version m = record m { mqtt_version = version }
