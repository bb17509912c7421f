-- ===== src/Lib.antt =====
-- A model of the octopusMQ message broker.
--
-- The program reads a configuration of adapters, runs each of them, and passes the messages that one
-- adapter gets on to the others. An adapter for MQTT is a broker of its own: it keeps the
-- subscriptions of its clients, sends what they publish to the subscribers, and pushes it to a
-- queue that all adapters share. The main thread takes the queue, and offers each message to every
-- other adapter whose scope includes its topic.
--
-- Base: names of the libraries, Boolean tests, texts as lists of bytes, lists by native numbers.
-- Error: src/core/error.hpp; a call that may throw has a `Result`.
-- Scope: src/network/message.cpp, class `scope`: `tokenize_topic_filter`, `tokenize_topic`,
--   `compare_topics`, `matches_filter`, `valid_topic_filter`, the constructors and `includes`. Its
--   children say what a text is cut into (Split, Tokens, Topics), which filters and topics are valid
--   (Filters), which levels match (Matching), and relate the code to it (Verdict, Answers,
--   Includes).
-- Numerals: `std::to_string`, `%d` and `std::stoi`, with what their digits are.
-- Network: src/network/network.hpp and network.cpp; Network/Phy the interfaces, with the setters in
--   Network/Phy/Changes, and Network/Addresses the strings of addresses.
-- Log: src/core/log.hpp and log.cpp; Log/Format the lines with a format, Log/Sizes `size_to_string`,
--   Log/Stamps the times,
--   and Log/Lines what several calls put out. The state has the clock, by what it shows at each reading.
-- Platform: what the brokers take from mqtt_cpp and boost, as a parameter with its documented
--   behaviour: whether the server of a broker can be made is one of its functions, and the container of subscriptions of src/threads/mqtt/broker.hpp is declared with
--   boost::multi_index_container, so it is a part of this parameter as well. Platform/Reference meets it.
-- Message: src/network/message.hpp, class `message`.
-- Broker: src/threads/mqtt/broker.hpp and broker.cpp. The record `Broker` is the state of a broker;
--   Handlers and Delivery have a function for each handler that the constructor sets, and
--   `inject_publish`; Events makes them one step relation; Thread starts and stops it; Logged prints
--   its log by the operations of Log; Table is the broker's specification, without the container:
--   Table/Refines relates the state to it, Table/Delivers what a publish sends.
--   The other children prove: Invariant what every reachable state satisfies, Publishing and Forwarding what is sent, Connecting, Subscribing
--   and Leaving how connections and subscriptions come and go.
-- Json: what is used of nlohmann::json, as a parameter. Json/Reference meets it.
-- Adapter: src/network/adapter.hpp, the settings and the pool; Adapter/Names the names in a
--   configuration. Adapter/Parsing: the constructors from
--   JSON of src/network/adapter.cpp, src/network/mqtt/adapter.cpp and src/network/dds/adapter.cpp.
--   Adapter/Factory: src/network/adapter_factory.cpp. Adapter/Built: what these build; Adapter/Typed
--   what the settings hold.
-- Queue: src/network/adapter.cpp, class `message_queue`, with the dispatch over the pool. Slots,
--   Delivered and Turns prove what each adapter gets, and what a broker sends for it; Bridge follows a message
--   from a client of one broker to the subscribers of another.
-- Settings: src/core/settings.cpp. Bindings proves which configurations are accepted, Typed what the
--   accepted ones hold.
-- Control: src/threads/control.cpp, from the arguments to the adapters that run; Control/Managing is
--   the loop of the main thread, with the events of the brokers and the signals in between;
--   Control/Ending the shutdown; Control/Reports what is printed, Control/Signals the signals, and
--   Control/Main `main` of src/octopus_mq.cpp and `control::run` with all that they print. Options and
--   Starting prove which arguments start the program, and what comes of the adapters; Managed and
--   Running what holds when the loop ends; Aborting an exception that ends the program; Main/Runs
--   what is printed and returned.
--
-- State is passed explicitly. An `Outcome` is a state, a state with an exception (`threw`), or
-- undefined behaviour (`fault`): a read past the end of a vector, or a call through a null pointer.
-- A broker's `sent` and `log` are what it has sent and logged, in order. `peers` gives the remote end
-- of a connection, and `none` where `remote_endpoint` throws. Numbers are natural numbers; the port
-- of a configuration is cut to the 32 bits of its type.
--
-- The loops of the tokenizers run on fuel, two more than the text has characters; that it is enough
-- follows from the theorems that equate them with the cut at every slash. `decimal` has a round for
-- each unit of its number, which is more than it has digits; `last_bit` has the 11 rounds that a
-- number of 64 bits needs. The other loops are structural.
--
-- A handler that throws ends the thread of its broker, and so the program; the state that it leaves is
-- that of `Reach`, which goes on from there, since the same exception in `inject_publish` reaches the
-- main thread and ends its loop alone.
--
-- Not modelled: threads, mutexes and the time that a wait takes, so each handler and each turn of the
-- queue is one step; sockets and TLS; the exceptions that sending to a connection may throw, of which
-- that of `remote_endpoint` alone is modelled; the client for MQTT, which is an empty class.
pub mod Base
pub mod Scope
pub mod Error
pub mod Numerals
pub mod Network
pub mod Platform
pub mod Log
pub mod Message
pub mod Broker
pub mod Json
pub mod Adapter
pub mod Queue
pub mod Settings
pub mod Control
