-- ===== src/Lib.antt =====
-- runai-cli: the command line of Run:AI, which submits jobs to a Kubernetes cluster and lists them.
--
-- Submitting a job reads the flags of the command line into one record of arguments, lays a template
-- over it, checks and completes the arguments by handlers that run one after the other, and renders a
-- chart from the result. Listing jobs reads pods and owners from the cluster, groups the pods by the
-- object that owns them, looks the owners up, and computes a status for each job.
--
-- The modules and the code that each is about:
--   Prelude     names of the libraries, and lemmas on lists, texts, association lists and numbers
--   Regex       the regular expressions that the code matches with, by derivatives
--   Validate    pkg/util/validate.go: names, sizes, classes and access modes
--   Submit      cmd/job/submit: Submit.Volume is volume_handler.go, Submit.GitSync is
--               submit_args_git_sync.go, Submit.Resources is requested_gpu_handler.go and
--               image_pull_policy_handler.go, Submit.Template is submit_template_util.go,
--               Submit.Line is the words of the command line in submit.go, Submit.Run is
--               setCommonRun with what it calls, Submit.Index is getJobIndex, and Submit.Kinds is
--               the bodies of the two commands in submit_runai.go and submit_mpi.go
--   Templates   pkg/templates: submit_template.go and submit_template_merger.go
--   Kube        the fields of Kubernetes objects that the code reads
--   Trainer     cmd/trainer: Trainer.Status is the statuses of trainer_common.go, Trainer.Owners is
--               getPodTopOwner and getPodJobMap of trainer_runai.go, Trainer.Jobs is
--               pkg/types/pod_template_job.go and the loop of ListTrainingJobs,
--               Trainer.Services is the helpers for services, nodes and last pods at the end of
--               trainer_runai.go, Trainer.Workload is the times of runai_workload.go,
--               Trainer.Search is SearchTrainingJob of trainer_common.go, and Trainer.Named is
--               IsSupported and GetTrainingJob of trainer_runai.go with what they call;
--               Trainer.Listing is ListTrainingJobs, Trainer.Amounts is the pods and GPUs of
--               runai_workload.go, and Trainer.Mpi is trainer_mpi.go
--   Workflow    pkg/workflow/workflow.go: the config map of a job, its files and installation in
--               Workflow.Job, and its deletion in Workflow.Removal
--   Nodes       cmd/util/gpu.go and cmd/util/node.go, with pkg/nodes/node_info.go and pkg/helpers in
--               Nodes.Resources and pkg/prometheus in Nodes.Metrics
--   Ports       pkg/util/port_allocate.go: free ports, and the variable of the package
--   Durations   pkg/util/duration.go
--   Cache       pkg/util/cache.go: a value that is fetched once for all who ask
-- A function keeps the name of the code in the spelling of this library, as in handle_pvc_params for
-- handlePvcParams; a field and a constant do too. A module below a component holds what is proved of
-- it, and its module Tests holds runs at concrete inputs.
--
-- State and errors: a method that changes its receiver returns the changed record, and a variable of a
-- package is passed along. An error is a value that names the message, and its text is left out; a
-- panic is `none` or an error of its own. A pointer that may be nil is an option, a map is an
-- association list in the order of its insertions, and a nil map or slice reads as empty. Where the code
-- ranges over a map, the result is stated so that it does not depend on the order. Numbers are native
-- natural numbers, integers that may be negative are ℤ, and times are numbers.
--
-- Concurrency: where several callers meet, in Cache and Submit.Index, a call or a critical section is one
-- step of a relation on the state that they share, and a run is a sequence of steps of any callers.
--
-- Loops are structural recursion. The one loop on fuel in the code is that of Ports: its fuel is the
-- length of the range of ports, 10000, and what is shown of it covers every port of the range, so that it
-- never ends for want of fuel. The printer of decimal numbers takes the number itself as its fuel.
--
-- Parameters: floats and quantities, with the parsers of floats and durations and, where a template is
-- applied, of integers, are arguments of the definitions that use them, and so is what the cluster
-- answers. In Workflow the world that helm, kubectl and the cluster change is a parameter with them, and
-- what is shown names what it needs of them. Other decimal integers are read by the parser in Prelude.
--
-- Not modelled: the generated clients and types of cmd/mpi, the YAML of templates and charts, the calls
-- of kubectl, helm and the cluster, signing in, printing, completion and the trainers of other
-- operators, for they are calls of libraries or the printing of values.
mod Prelude
pub mod Regex
pub mod Validate
pub mod Submit
pub mod Templates
pub mod Kube
pub mod Trainer
pub mod Ports
pub mod Cache
pub mod Workflow
pub mod Nodes
pub mod Durations
