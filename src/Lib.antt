-- ===== src/Lib.antt =====
-- Verification of the assfire suite: the routing, scheduling and travelling salesman services of
-- this repository, without their transport, storage and deployment.
--
-- The parts and how they interact. A route provider answers for single routes (apps/router). A
-- distance matrix gives indices to locations and answers for pairs of them: the direct engine asks
-- the provider each time, the full matrix engine fills a matrix at the first query and keeps it. The
-- scheduler (apps/scheduler) sets the times of a waybill's allocations with the routes of a distance
-- matrix. The solver (apps/tsp) improves an order of points by 2-opt moves, whose cost is the total
-- distance in a distance matrix; it can be interrupted, saves its state, and is started again from it.
-- The worker takes tasks from a queue, locks each in Redis, and runs the solver in a session until a
-- final solution, an error or a signal ends it.
--
-- The files.
--   Base: shared lists, integers, results, and decimal numbers as std::to_string prints them.
--   Concepts: apps/concepts/api-cpp/assfire/concepts, a file for each class. Division holds the
--     templates of TimeInterval.hpp that scale an interval, and Translators the translators of
--     apps/concepts/proto.
--   Router: apps/router/api/assfire/router/api. RouteInfo, RouteDetails, IndexedLocation, Settings
--     and Matrix model the files of these names, Provider models RouteProviderEngine.hpp; Direct and
--     FullMatrix model the two engines of distance_matrix_engines, and LocationKey the keys of the
--     full matrix engine and of client/assfire/router/client/GrpcRouteProviderEngine.cpp. Redis
--     models RedisRouteProviderEngine of engine/assfire/router/engine/impl/route_provider_engines,
--     Translators the translators of apps/router/proto, and Client the GrpcRouteProviderEngine.
--     Engine models EngineDistanceMatrixFactory and RouterEngine, and Service the handlers of
--     apps/router/server/assfire/router/RouterService.cpp. Providers models the crowflight,
--     Euclidean, random and OSRM engines of impl/route_provider_engines, and Messages holds service.proto.
--   Scheduler: Waybill models apps/scheduler/api/assfire/scheduler/api; Linear and Bilinear model
--     the two algorithms of engine/assfire/scheduler/engine/algorithms and Engine the factory and
--     the engine above them; Translators models the translators of apps/scheduler/proto, and Service
--     the handler of SchedulerService.cpp with the client's remote algorithm; Feasible says what a
--     schedule has to fulfil, whatever computes it.
--   Tsp: Task and Solution model apps/tsp/api/assfire/tsp/api; StateContainer, Estimator, TwoOpt,
--     TimeWasting and Controller model the files of engine/assfire/tsp/engine of these names, Engine
--     models TspSolverEngine.cpp there. Worker models worker/assfire/tsp/worker: Keys, TaskProvider
--     and SavedState the classes of impl over a Redis client, Services the abstract classes,
--     Iteration a round of Worker::start, and Locks several workers over one server.
-- In each part the children of a module hold its proofs and are named for what they prove; the Tests
-- modules run the definitions and apply the theorems at concrete values.
--
-- How the code is modelled. A class is a record, a method a function that returns the new state with
-- its answer. An exception is the value err of Result (throws of Outcome in Tsp, which has undefined
-- too, for what C++ gives no meaning). A C++ int or int64 is an integer with no bound, but a
-- message's int32 field takes its low 32 bits; the index arithmetic of Matrix is taken modulo 2^64,
-- as the code converts to size_t there, and the theorems on matrices ask for fewer than 2^64 cells.
-- A double is kept as its 64 bits, and the machine's operations on doubles are the parameter Fpu, of
-- which no law is assumed. The route provider of a distance matrix, the distance matrix of the
-- scheduler, the store and the serializer of the cached provider, the estimator of the solver and
-- the services of the worker are parameters: abstract classes of the code. So are the Redis client,
-- the client of the router's gRPC service, the connector to OSRM, std::cos and its like, the numbers
-- that the random engine draws and what() of an exception; what they are relied on for is a named
-- hypothesis. Their answers are taken to be the same at each call, those of the store as long as it
-- holds the same. The calls of isInterrupted are a sequence of answers, read one by one. To the
-- controller each call, each publication of the task that runs and the end of it are one step, and of
-- a callback only that it throws is seen.
--
-- The loop of the 2-opt search is a recursion on fuel, and none is returned where the fuel ends. The
-- measure `left` of a state bounds the rounds that follow it, so fuel beyond the measure of the
-- first state is enough, which the theorems on solveTsp show. The loop of the time wasting algorithm
-- has fuel too, and needs one more than the rounds that its counter leaves. All other loops are
-- recursions on lists.
--
-- Not modelled: locks and atomic flags (calls are taken one at a time), logging, text output, gRPC,
-- Redis itself and AMQP, which are I/O; the translators of the solver's messages,
-- TspSolutionSession; the Go gateways and the deployment.
mod Base
pub mod Concepts
pub mod Router
pub mod Scheduler
pub mod Tsp
