-- ===== src/Lib.antt =====
-- The browser shell of HufiAgents: the JavaScript under hufiagents/api/static.
--
-- The shell is a page with five views over one backend. `app.js` gives every module the request
-- function, HTML escaping, the right pane and the sidebar; `nav.js` switches the views; `org-data.js`
-- keeps the organisation (agents, teams, projects, resources, relationships, rooms), tells its
-- subscribers of each change and translates the backend's errors; `agents.js` names and colours the
-- agents; `org-canvas.js` draws the organisation as a graph or a list and connects nodes; `chat.js`
-- sends messages, recognises routines and follows missions; `credentials.js` recognises access keys
-- in messages; `work.js` shows the evidence of the work that was done; `cards.js` renders agents,
-- teams, projects, resources and routines, and opens the chat rooms of `rooms.js`.
--
-- Files, with the paths of the code below hufiagents/api/static:
--   * Prelude, Prelude/*: shared names, Boolean tests, lists counted by the native numbers.
--   * Js/Text, Js/Regex/*: texts as lists of UTF-16 units with the string methods that are used, and
--     regular expressions: the backtracking matcher of the language (`run`), a meaning of patterns
--     without a search order (`Derives`), compared in Js/Regex/Correct. Patterns of the code are
--     written with the combinators of Js/Regex/Patterns.
--   * OrgData/Errors: `Hufi.errors.translate`; OrgData/Types, OrgData/Store: the state of
--     `Hufi.orgData` and its operations, each with the answer of its request as an argument;
--     OrgData/Translation, Relations, Mutations, Made, Performed, Reachable: their
--     theorems. (org-data.js)
--   * Agents/Names, Avatar, Schedule: `humanizeId`, `friendlyRole`, `hashHue`, `avatarColor`,
--     `initials`, `scheduleLabelDe`; Agents/Sidebar, Found: `renderSidebar`, `wireSearch`,
--     `loadSidebar`; Agents/Audit: `fetchAggregatedAudit`; Agents/Activity: `loadAgentActivity`,
--     `loadRoutines`; Agents/Slug, Slugged: `openNewHufiModal`. (agents.js)
--   * Dialogs/Routine, Weekly: `openRoutineModal` of agents.js and `openNewRoutineModal` of cards.js;
--     Dialogs/Create, Named: `openCreateModal` of org-canvas.js; Dialogs/Project:
--     `openNewProjectModal` of cards.js; Dialogs/Trap: the keys of an open dialog, from rooms.js.
--   * Cards/Lookup: the helpers; Cards/Agent, Once: `renderAgentCard`; Cards/Team, Project, Sets,
--     Reached, Ways, Resolved, Named, Chat: `renderTeamCard`, `renderProjectCard`; Cards/Link, Tile, Safe:
--     `toHttpsGithubUrl`, `renderResourceTile`, `loadRegistryProjects`; Cards/Grid, Sorted, View,
--     Fresh: `registerProjekteView`; Cards/Schedule, Spelled, Routines: `scheduleDe`,
--     `registerRoutinenView`. (cards.js)
--   * Rooms/Header: participants and the head of a room; Rooms/Thread, Log: `renderRoom`, `send`,
--     the store of messages; Rooms/Open, Twice: `Hufi.rooms.open`. (rooms.js)
--   * Canvas/Elements, Graph: `buildElements`; Canvas/Connect, Keyboard, Notify: `resolveDrop`,
--     `createOrNotify`; Canvas/Question: `openResourceConfirm`; Canvas/Drop, Smallest, Granted,
--     Redrawn: `handleDrop` and what follows it; Canvas/Details: `relationshipRows`; Canvas/Edit,
--     Listed, Edited, Late: `openEditRelationshipsModal`; Canvas/Select, Known, Opened:
--     `selectNode` and the detail panels; Canvas/Rows, View, Current: `renderListView`, `refresh`,
--     `setSubview`, `mount`, `onShow`, `onHide`. (org-canvas.js)
--   * Chat/Routine/*: `extractTimeDe`, `detectRoutineIntent`; Chat/Send/*: `handleSend`, `sendText`,
--     `visibleRedact`; Chat/Mission/*: `statusLine`, `progressChecklistHtml`, `trackMission`,
--     `ensureApprovalCard`, `renderResult`; Chat/Decision: the buttons of `renderApprovalCard`;
--     Chat/Start: the texts of `startTurn` and `startRoutineTurn`; Chat/Timeline: `renderTimeline`.
--     (chat.js)
--   * Credentials/Detect, Flagged, Keys: `interceptChatInput`, `loosePlausibilityCheck`;
--     Credentials/Connect/*: `openConnectModal` and its form. (credentials.js)
--   * Work/Evidence, Sorted, Cards, Redaction, Summary, Fetch, Newest: `loadWorkEvidence` of
--     org-data.js and the view of work.js.
--   * Shell/Escape, Panes, Views, Visible: `Hufi.esc`, the right pane and the sidebar of app.js, and
--     `Hufi.views` of nav.js.
--   * Tests/*: runs at concrete inputs, and each theorem applied to them.
--
-- How the code is modelled. A module's variables are a record, an operation a function on it. An
-- asynchronous operation is cut at its `await`: the part before it records what is asked for, and
-- the part after it takes the answer as an argument, so that answers may come in any order
-- (Work/Fetch, Chat/Mission/Tracker). What a function renders is the texts that it shows, in their
-- order. Identifiers, kinds and names that are only compared are native strings; a text that is
-- searched or cut is a list of UTF-16 units. `toLowerCase` and `toUpperCase` are exact on Latin-1 and
-- leave other letters as they are. A time is its milliseconds, with its local calendar day where
-- that is asked for. The numbers of a position, the order by locale, the locale's spelling of a date
-- and the native string of a text that is typed are arguments.
--
-- Fuel: the rounds of a repetition in a pattern are bounded by the units that are left, since each
-- round takes one; replacement and repeated search take a unit per step;
-- the digits of a number n are at most n steps; the decoder of character
-- references reads a unit per step.
--
-- Not modelled: the graph library and its layout, the drawing of avatars, styles and the building of
-- page elements; of agents.js, chat.js and credentials.js the parts that only render or make one request. The Python backend is
-- the other side of the requests, whose answers are arbitrary here.
pub mod Prelude
pub mod Js
pub mod OrgData
pub mod Agents
pub mod Canvas
pub mod Chat
pub mod Work
pub mod Credentials
pub mod Dialogs
pub mod Cards
pub mod Rooms
pub mod Shell
pub mod Tests
