-- ===== src/Lib.antt =====
-- The user interface of the DigitalEdge Pipeline Tool, de-ui-system-tools/app, whose scripts let a user
-- build a system of operators, check it, save it, and run it.
--
-- - Prelude: Boolean tests, lists, texts, integers, and the outcome of a handler, which returns or throws; in
--   both cases the state stays as the handler left it.
-- - Builder (system-builder/system-builder.controller.js). Builder.Model holds the data: `$scope` is
--   the record Scope, `$localStorage` the record Storage, `stateObjects` a list of Operator, and
--   `jsonConfig.systemDescriptor` an optional Descriptor. Builder.Json is `updateJSON`, Builder.Streams
--   `updateConnections`, Builder.Forms `validateState`, `findValidation` and `parseInvalidText`, with
--   `validateForm`, `addToList` and `removeFromList` in Builder.Forms.Editing, Builder.Scan and
--   Builder.Check the two halves of `validateAll`, Builder.Canvas `drop`, `removeAll`,
--   `removeState` and `removeStateConnection`, Builder.Connect `onConnection` and `setUUID`,
--   Builder.Cycles `isCyclical` on what the drawing library holds, and Builder.Session `update`,
--   `saveToManager`, `saveOperator` and the messages that come in, with the watch on `stateObjects` in
--   Builder.Session.Watch. Builder.Steps plays a page: the
--   events of the user and of the server, among them the inputs of operator-details.html, one after
--   another from an empty canvas.
-- - Monitor (system-manager/monitor-info.js), the service MonitorData. Monitor.Apps is
--   `getAppListSocket.onMessage`, Monitor.Window and Monitor.Cpu the two charts in `ws.onMessage`,
--   Monitor.Start `start`, and Monitor.Socket the handlers and requests as events on one record, which
--   stands for `ret`, `config` and the names of descriptors.
-- - Manager (system-manager/system-manager.js): Manager.Model holds `$scope`, Manager.Merge and
--   Manager.Refresh are `refreshSystems`, which takes what MonitorData holds, Manager.Actions the
--   requests of the user behind their confirmation, and Manager.Pages the watch on `active`,
--   Manager.Logs `logService.onMessage` with Manager.LogText for its regular expression.
-- - Library (operator-library/operator-library.js): Library.Operators is the part of the operators,
--   with the answers on `opSocket`, and Library.Rules that of the validation rules,
--   Library.Rules.Requests their requests, and Library.Validations the rules that every page has.
-- - Shell (app.js, app.content.js): Shell.Tour is the tour, `tourSteps` with what its steps do in the
--   controllers. Shell.Tour.Steps holds the orders of the steps in the templates.
--   Shell.Relay hands on what a refresh of the manager emits to the builder, and Shell.Metadata is the
--   way of the operators' metadata between the library, the builder and the ribbon.
-- - Drawing (assets/lib/directives.js): Drawing.Zoom is the zoom of the canvas,
--   with `dragWorkaround` of the builder, and Drawing.Lines the directive `jsPlumbConnection`.
-- - Ribbon (system-builder/operator-ribbon.directive.js): the colours and the order that
--   `refreshOperators` gives to the list of operators, which Builder.Session makes.
--
-- How the code is read. An operator has a field `ref` for the identity of the object, by which `===`
-- and `indexOf` compare. A type that is not one of the seven is `other`. A read of a property of
-- `undefined` is the outcome `thrown`. `JSON.stringify` of the operators is the list of operators.
-- Objects that serve as maps are association lists, without the keys that every object inherits.
-- Loops are recursions on lists; the walk of `isCyclical` has fuel, and any that is above the rank of
-- its start is enough; `to_string` divides by ten on fuel `n`, which is more than the number of digits
-- of `n`. What `new RegExp` makes of a pattern that a user wrote, and what `JSON.parse` makes of a
-- message, are parameters; the patterns of the scripts themselves are functions.
--
-- The text of a date and the order that `sort` makes with a comparator of one argument depend on the
-- browser, and are parameters of `refreshSystems`. The `sort` of the ribbon, which has a comparator of
-- two, is a parameter too, of which it is supposed that it keeps the members and puts them in order.
--
-- Not modelled. The drawing library is a parameter, and so is the tour library, of which it is
-- supposed that it moves to a step behind the call. The geometry of the canvas (`resetPosition`,
-- `equalizeZoom`), jQuery and the DOM have no part in what is saved. A watch or a timer that the
-- browser calls is an operation of its own, as `update`.
mod Prelude
pub mod Builder
pub mod Monitor
pub mod Manager
pub mod Library
pub mod Ribbon
pub mod Shell
pub mod Drawing
