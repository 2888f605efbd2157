-- ===== src/Lib.antt =====
-- dag-doctor: an agent that diagnoses failing Airflow pipelines.
--
-- An Airflow callback publishes a task failure on a Kafka topic. The worker's consumer reads it, opens
-- an incident in the agent's database and runs an investigation: a LangGraph graph of six nodes, in
-- which a language model plans tool calls, proposes hypotheses and judges tests, while code decides
-- the route, the budgets and the confidence. The diagnosis is stored and announced.
--
-- The files and what they model:
--
--  Core         core/models.py and core/settings.py: the records and enums of the domain, the budgets
--               with their validator; JSON values with the fingerprint that tells calls apart; and
--               the regular expressions that the code uses, matched by derivatives.
--  Tools        tools/base.py (Envelope): a tool's outcome and BaseTool.run with its error paths, where
--               a cancellation is let out; it ends the whole delivery, so that the graph, whose tools
--               give results, does not see it;
--               tools/sql.py (Sql): table names, read-only statements, hardening and row limits;
--               tools/airflow_metadata.py (Airflow, and in Upstream the search for the tasks above a
--               task); tools/schema_inspect.py (Schema); tools/similar_incidents.py (Signature,
--               Similar); tools/data_profile.py (Profile); and registry.py, connections.py and factory.py (Registry).
--  Graph        graph/state.py (State), confidence.py (Confidence), routing.py (Routing), toolbox.py
--               (Toolbox), arguments.py and nodes/*.py (Nodes, one file a node; Probe is the node
--               test_hypothesis), builder.py (Builder). A node maps a state to an update or a raised
--               error, and call is the common wrapper of nodes/base.py, which records the step.
--               Caller is the protocol of graph/model.py: for each node a function from the state to
--               the model's reply. Rule is the induction rule for runs, Effects what one node
--               changes, Freshness is about a round of gathering,
--               Attribution about the task that is blamed, and Termination, Limits, Outcome and Trace are
--               about whole runs.
--  Messaging    messaging/schemas.py (Schemas), consumer.py and dlq.py (Consumer): what the consumer
--               does with a record is a list of effects, in order, of which a failed commit is the
--               last, as it raises and ends the run; Base64 is the standard encoding.
--               producer.py (Publisher): the failure publisher as a machine that calls the broker;
--               airflow_callback.py (Callback): what Airflow runs on a failed task.
--  Worker       db/models.py and db/repositories.py (Store): the tables as lists of rows with the
--               unique keys of the schema; worker/investigator.py (Investigator): a delivery maps the
--               store to a store, an ending and what was announced. History reads the diagnosis of
--               the latest attempt.
--  Api          api/v1/routes/incidents.py (Paging, Incidents): the pages of a listing with their
--               cursors, which diagnoses.py shares, one incident, and its replay, which runs the
--               worker's investigation once more.
--  Evaluation   evaluation/scorer.py (Scorer) and the wait of runner.py (Polling).
--  Examples     a sample investigation, runs that are evaluated, and one instance of each result.
--
-- All paths are under src/dag_doctor. The functions have the names of the source's methods.
--
-- Representation. Numbers are native; confidence, strengths and thresholds are ten-thousandths, the
-- precision to which the source rounds. A penalty is kept as its size and subtracted. Identifiers
-- are native strings; free text that the code scans is a list of code points, and case and white
-- space are those of ASCII. A UUID and a moment are numbers; a UUID that the source draws is a
-- parameter.
--
-- Parameters. The model's replies, the tools' results, pydantic's validation of a payload, the
-- handler and the broker as the consumer meets them, the machinery of LangGraph, json.loads, whether
-- a Kafka client can be built and its settings read, and whether a database takes a negative LIMIT are
-- functions and flags that the definitions take; what a result needs of them, it says. The JSON of a
-- serialised DAG is any JSON.
--
-- Fuel. A run of the graph takes fuel, one unit for each node. Three units for each iteration of the
-- budget are enough, by Graph.Termination.run_graph_total, since each way round the loop passes
-- three nodes and spends an iteration.
--
-- A reader of pages takes one unit for each page, and the wait of the evaluation one for each poll;
-- the loops of the search for upstream tasks, of the pages and of the wait have bounds that
-- Tools.Upstream.Rounds, Api.Paging.Reader and Evaluation.Polling.Deadline prove to be enough.
--
-- Fractions. The rates of the evaluation and the similarity of two failures are kept as a numerator
-- and a denominator; what Python makes of them is a rounding, a parameter where code depends on it.
--
-- Not modelled: logging, metrics, serialisation and the schemas of the API, its health and error
-- pages and the feedback on a diagnosis; sessions and transactions of SQLAlchemy, the clients of
-- Kafka, the construction of language models, and the publisher of diagnoses apart from what it is
-- given; the tools that fetch a log, a source or the health of a connection; and the rendering of reports.
-- Deliveries at the worker follow one another, except in get_or_create, where other workers may
-- write between its query and its insert. The rows of a query that orders by a moment are taken in
-- that order, and of rows of one moment, where the database may give any, the first in the table.
pub mod Base
pub mod Core
pub mod Tools
pub mod Graph
pub mod Messaging
pub mod Worker
pub mod Api
pub mod Evaluation
mod Examples
