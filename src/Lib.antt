-- ===== src/Lib.antt =====
-- The verification of the C++ library px4_ros2_cpp, with which ROS 2 programs provide flight modes,
-- mode executors and missions to the PX4 autopilot.
--
-- The parts and how they interact. A mode (px4_ros2_cpp/src/components/mode.cpp) registers with the
-- autopilot (registration.cpp), answers its arming checks (health_and_arming_checks.cpp), is
-- activated by its vehicle status, publishes setpoints of one type at a time, and reports when it
-- completes. A mode executor (mode_executor.cpp) owns a mode, gets in charge by the vehicle status,
-- schedules modes by commands (utils/vehicle_command_sender.cpp) and calls back when they end. Both
-- can change settings of the autopilot (overrides.cpp), and share one subscription to the vehicle
-- status (components/shared_subscription.hpp). A mission executor (mission/mission_executor.cpp)
-- drives a mode and an executor through the items of a mission (mission/mission.hpp).
--
-- The files, and how they correspond to the code:
-- Base: what all share. A C++ `int` is ℤ where it can be negative; floats are bit patterns.
-- Px4Msgs: the constants and messages of the package px4_msgs, which is generated: parameters.
-- WaitLoop: the loop of a request and its replies. The replies are a list for each attempt, so the
--   loops are structural: five attempts in `doRegister`, three in `sendCommandSync`.
-- Registration, CommandSender, Overrides, HealthChecks, Requirements, SharedSubscription: one module
--   for each of these files; functions keep their names (`doRegister` is `do_register`), and the
--   state of a class is a record with its fields. What is published is a list in the state.
-- Mode: `ModeBase`, with `Mode.Activation` for the vehicle status and `Mode.Registering` for
--   what happens up to the registration. The virtual methods that users write are a function from
--   what the mode is told and its state to the public calls that they make.
-- ModeExecutor: `ModeExecutorBase`, with `ModeExecutor.Requests` for the public calls,
--   `ModeExecutor.Status` for `vehicleStatusUpdated`, and `ModeExecutor.Registering` for the
--   registration and the deferral of failsafes. User code runs at the calls of `tell`, inside the
--   operations, and may call the executor again; `ModeExecutor.Client` makes it a script, with fuel
--   for the depth of such calls: what is stated of scripts is stated for every fuel. A failed
--   `assert` is recorded, and the code goes on as in a release build.
-- MessageCompatibility: `messageCompatibilityCheck`, with a module for the hash, the inferred names,
--   the text of a definition, the requests, and the branch for Zenoh. Nested definitions are read up
--   to a depth; a rank of the types, which recursive definitions do not have, says what is enough.
-- Json, Mission, MissionExecutor: the mission in memory, its trajectory segments, and the executor:
--   `MissionExecutor.Stored` for the persistent state, `MissionExecutor.Feasibility` for
--   `setMission`, `MissionExecutor.Running` for activation, items, callbacks and aborts, and
--   `MissionExecutor.Client` for the `ActionHandler`. Callbacks are data, run by `complete`,
--   `index_reached` and `mode_completed`; a handler is a number, and only the current one is valid.
--   The vendored JSON library is a parameter with laws from its documentation: values are assigned
--   to null or an object, and an update with anything but an object throws. The files, the hash of
--   a mission, and `std::set` are parameters too.
--   `Mission.JsonForm` is the JSON form of missions, `to_json` and `from_json` of each type.
--   `Mission.DefaultActions` has the resume action, as the steps that it takes, and
--   `MissionExecutor.ActionSteps` the other default actions, as calls of the handler.
-- WaypointExecutor: `WaypointTrajectoryExecutor`, which flies the trajectories of a mission. An update
--   ends with at most one callback: it is what the update returns.
-- Vtol: the class `VTOL`. Times are nanoseconds; `Vtol.Runs` has the messages and calls in any order.
-- Navigation: the interfaces for local and global position measurements; an exception is a value.
-- Setpoints: the setpoint types, with a module for trajectories, multicopters, fixed wing, rovers and
--   actuators. An update is the list of what it does.
-- Vehicle: the wait for the autopilot (components/wait_for_fmu.cpp) and the home position.
-- Witnesses: concrete inputs for the theorems.
--
-- Not modelled: the thread of the mission file monitor; the geodesic and geometric formulas, and
-- odometry, which are floating point or access to a message; events, nodes, bindings and
-- examples, which are glue; logging and timestamps. The autopilot ids of registrations that come
-- in are below 32, counters other than the token of a shared subscription do not wrap, and the
-- mode that an executor owns does not call it.
pub mod Base
pub mod Px4Msgs
pub mod WaitLoop
pub mod Requirements
pub mod Overrides
pub mod Registration
pub mod CommandSender
pub mod SharedSubscription
pub mod HealthChecks
pub mod Mode
pub mod ModeExecutor
pub mod Json
pub mod MessageCompatibility
pub mod Vtol
pub mod Navigation
pub mod Setpoints
pub mod Vehicle
pub mod Mission
pub mod MissionExecutor
pub mod WaypointExecutor
pub mod Witnesses
