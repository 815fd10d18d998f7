-- ===== src/Lib.antt =====
-- A verification library for ganker, a Tinker-style system that fine-tunes language models: clients
-- create training runs, accumulate gradients, step an optimizer, save weights, and sample from the
-- saved weights.
--
-- The parts of the program and the files that model them:
--
--   Base       the Python that the program uses: `int` as a ℤ over the native numbers (Int),
--              exceptions as values and methods as functions from a state to a result and a state
--              (Result), `dict` as an association list in insertion order (Dict), `sorted` and the
--              order of strings (Order), decimal numerals (Text), files (File), and `float` as a
--              parameter (Float). src/ganker/errors.py is in Base/Result.
--   Contracts  src/ganker/contracts.py: the typed requests, responses and values.
--   Telemetry  TelemetryLedger and TelemetryComponent of src/ganker/components.py. The ledger is the
--              list of its events; `record` is record_event, `summary` is summary.
--   Artifacts  src/ganker/artifacts.py: FilesystemArtifactStore over a dictionary from paths to
--              contents.
--   Backends   the protocols of src/ganker/backends/base.py as records TrainingBackend and
--              InferenceBackend. Backends/Fake models src/ganker/backends/fake.py, Backends/Megatron
--              models the coordinator, the tensor conversion and the split of batches of
--              src/ganker/backends/megatron.py, Backends/Sglang the backend of
--              src/ganker/backends/sglang.py over any SGLangRuntime, and the server process and
--              the adapters of SGLangHTTPRuntime (Http, Server, Refreshes). Watched is a machine that
--              notes the calls that it gets.
--   Components TrainingComponent and RolloutComponent of src/ganker/components.py over any backend.
--   Actors     src/ganker/actors.py: the state of the training, rollout and telemetry actors and the
--              files (Mesh), and the endpoints of ProxyActor (Proxy), ControllerActor (Controller)
--              and ControllerProxyActor (ControllerProxy, which takes what Monarch raises for an error
--              of the controller as a parameter).
--   Transport  src/ganker/transport.py: the download of an artifact's files, the ProxyTransport
--              protocol as a record, and MonarchProxyTransport over a mesh (Transport/Proxies).
--   Rpc        src/ganker/rpc/conversion.py (Values, Tensors, Requests, Responses) with the messages
--              of proto/ganker/rpc/v1/proxy.proto (Wire), src/ganker/rpc/server.py (Server, Errors)
--              and src/ganker/rpc/client.py (Client, Errors). `handle` is _handle, `servicer_methods`
--              the methods of GankerProxyServicer, `grpc_proxy_transport` GrpcProxyTransport.
--   Client     src/ganker/client.py: the public client over any transport.
--   Torchrun   src/ganker/distributed/torchrun.py: the sizes of the parallel groups, the ranks, the data
--              that a rank selects, and the arguments of a launch.
--   Registry   src/ganker/distributed/registry.py: role keys, addresses, endpoints, as_dict and
--              from_dict (Payload), and put, get and heartbeat of MappingRunRegistry over a dict of
--              such dictionaries (Mapping).
--   Sft        examples/sft/data.py: the encoding of examples for a tokenizer, and the batches.
--              Sft/Loop models examples/sft/loop.py, and states what it asks of a transport as the
--              record CountsSteps (Counting), which a mesh of the fake backends fills (Local).
--   Tests      the models run on concrete inputs.
--
-- A client's request comes through a transport, from the same process or through the gRPC service,
-- enters at ProxyActor or at ControllerProxyActor, goes to the component that
-- serves it and from there to a backend; the training backend writes artifacts that the inference
-- backend reads; the usage in a response goes to the ledger.
--
-- How code becomes definitions. A method that changes its object and may raise is a function from
-- the state to a result and the state after it, so what was written before a raise stays written.
-- Objects in a dict that methods change in place are stored again under their key. A field of type
-- `int` is a ℤ, and an IntEnum has a further constructor for the ints that are no member. Locks are
-- not modelled: a method runs without interruption, which is what the locks and the actors are for.
-- Fresh UUIDs, the time, the float type, tokenizers, torch, the Megatron runtime, the protobuf package
-- (Rpc/Protobuf), the metadata of a gRPC call, the resolution of paths, and the processes, the clock and
-- the HTTP client of the SGLang runtime (Backends/Sglang/Http) are parameters. `float(n)` is a
-- function: an int beyond the range of a float is not modelled.
-- The loops of the code go over a list or over a range given by a number. Two loops run on fuel: the
-- digits of a number (show_fuel in Base/Text), with n + 1 rounds, enough since each divides by ten
-- (Base/Text/Decimal), and the wait for a server (wait_rounds in Backends/Sglang/Server), which is
-- given more rounds than the clock leaves sleeps before the deadline (Backends/Sglang/Waiting).
--
-- Not modelled: the Monarch and gRPC processes, that an error of a training, rollout or telemetry
-- actor arrives wrapped in an error of Monarch in the actor that called it, failures of the file
-- system, Megatron, SGLang and torch themselves, the Modal apps, the generated protocol code, the
-- meshes that a client spawns, the requests and replies of the SGLang server, and the
-- configuration mappings.
pub mod Base
pub mod Contracts
pub mod Telemetry
pub mod Artifacts
pub mod Backends
pub mod Components
pub mod Actors
pub mod Torchrun
pub mod Transport
pub mod Sft
pub mod Registry
pub mod Rpc
pub mod Client
pub mod Tests
