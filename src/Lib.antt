-- ===== src/Lib.antt =====
-- The question flow of TEKIJIN, its recommendations, what it stores and the service in front of it.
--
-- TEKIJIN takes an employee's question, understands it, retrieves past answers, documents and
-- people, picks a route, ranks people, drafts a message and hands the question to a person, who
-- accepts, declines or asks for another draft. All paths below are under backend/src/tekijin.
--
-- Parts, and the file that models each:
-- - Route: agent/route.py. `decide_route` on the hits of a retrieval (agent/state.py). A
--   similarity or a confidence is a whole number of ten-thousandths.
-- - Agent: agent/state.py is Agent/State, the constructor arguments of `AgentNodes` are Agent/Deps.
--   The nodes of agent/nodes.py keep their names: Agent/Nodes (reset to prior_answer), Agent/Pick
--   (c6_score and its helpers), Agent/Handoff (the critic, draft, send, reroute, c8_update),
--   Agent/Answering (answers from data, and the terminals; `say` is the terminals that only write
--   their text). A node returns the state with its update merged. `ask` and `send` take the value
--   that their interrupt is resumed with.
-- - Agent/Graph: agent/graph.py. The routers `_after_*` are `after_*`, the edges that `build_agent`
--   adds are `next`, and `Reach` is what a run comes to, step by step, whatever people reply. The
--   graph sits on the nodes as `build_agent` does; each node is a total function or returns a
--   `Result` where the code raises.
-- - Scorer: scorer/scorer.py. `rank`: who is scored, the order and the cut, where what one person
--   scores (`_score_person`) is an argument. `Ranker` is the interface that `c6_score` uses: at most
--   `top_k` rows, one per person, from the candidates, never the asker; `ranker` fills it. Scores
--   are compared as whole numbers.
-- - Store: data/writes.py on the tables of models/tables.py. A write takes the database and returns
--   it changed; `none` stands for an IntegrityError, raised where a foreign row is missing, a key is
--   taken or a row that is still referred to is deleted. An insertion that the code flushes later
--   is checked when it is made. `Log.Write` is the list of the writes, `History` a sequence of
--   accepted ones.
--   Store/Threads is data/messages.py with the consultation method of data/handoff.py, and
--   Store/Signals is data/feedback.py.
-- - Events: api/events.py on the event data of api/schemas.py. An event keeps its data as a record.
--   `node_event` reads what a node wrote in the state after it, and from the node's update the two
--   values that the node may leave out.
-- - Service: api/service.py. The state (Service/State) is the database, a checkpoint per session
--   (the node it is parked before, and the values), the registry of queued inputs, the session
--   locks that others hold, the runs that are active and the messages handed to Slack. A request
--   holds its session's lock, so it is one function on this state: Service/Sessions (admission, sweep,
--   a new question), Service/Requests (what resumes a paused session), Service/Draft (the draft and
--   the choice of the target), Service/Fallback (a hand-off after a document), Service/Outcome (the
--   row of an outcome), Service/Stream (the event stream). `_run` is Service/Persist, Service/Send and
--   Service/Run: `drive` steps the graph of Agent/Graph, and saves, persists, times and sends what
--   each node wrote. Service/Request has the requests as values, and `Served` is what any of them
--   lead to, in any order; Service/Phase is the abstract machine of one session, and Service/Apart
--   what a request leaves alone. The service sits on Agent/Graph, Events and Store through their
--   operations. A best-effort write that fails leaves the database as it was.
-- - RateLimit: api/rate_limit.py, `SlidingWindowLimiter`. Times are whole numbers of the clock's
--   unit, in the order of the calls.
-- - Dedup: slack/dedup.py, `SeenEventIds`. The ordered dictionary is the list of its keys.
--
-- Parameters: the language models, the embedder, the retriever, the text routines, the serialiser of
-- event data and the clocks. Of LangGraph the service uses: a saved state is what the last node left;
-- `update_state` changes values and keeps the place of the run, or puts it after the node that is
-- named; a fresh input is merged into the values and starts at `reset`.
-- The flow takes any `Ranker`, and the examples the one that `rank` fills.
--
-- Fuel: `segment` runs nodes until a person is waited for. Each edge between two pauses goes down
-- in `height`, which is 13 at most, so that fuel of 14 is enough from any node. The fuel of `drive`
-- is the number of updates after whose event the reader is still there, and 15 are enough for any run:
-- without it the reader is gone, also at the last event, before the end of the run is saved.
--
-- Bounds: `top_k` is 3 and `max_followups` is 1, as in the code.
--
-- Not modelled: what one person scores (floats over the evidence), the retriever and its indexes,
-- the HTTP routes and the Slack layer, most of the read side of the database, authentication,
-- evaluation and the frontend. Of the service: what calls a model outside the flow, the names and
-- departments of people, and the lock objects, for which a held lock stands. Of the foreign
-- keys, those to employees are checked where a row goes in. The tables of the Slack layer and of the
-- knowledge library are left out.
pub mod Prelude
pub mod Route
pub mod Scorer
pub mod Agent
pub mod RateLimit
pub mod Dedup
pub mod Store
pub mod Events
pub mod Service
