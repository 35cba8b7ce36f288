-- ===== src/Lib.antt =====
-- Verification library of provider-minio, a Crossplane provider that manages objects of a MinIO
-- server: buckets, policies, users, service accounts and the notification configurations of buckets.
-- For each kind there is a controller. Crossplane's reconciler calls its handlers Observe, Create,
-- Update and Delete on the managed resource, and the API server calls its admission webhook. The
-- controllers share no state; they meet in the MinIO server and in the API server.
--
-- Base: tests on numbers and texts, lists, Go's maps, slices and package strings.
-- Runtime: a handler is a function from a World (the outside state, the events emitted and the
--   resource) to a Result (a value, an error or a panic) and the World after it, so that what was
--   changed before an error stays changed. The state of the outside is a type parameter.
-- Apis: the resources, after apis/minio/v1beta1/*_types.go, and the provider configuration, after
--   apis/provider/v1 and apis/common. Apis.Managed is the interface resource.Managed with the type
--   assertion of every handler (narrow), Apis.Lists has the list types, and Apis.Register the names and
--   kinds of the types.
-- Client: what the program calls of minio-go (S3), madmin-go (Admin) and minio/pkg/iam/policy (Iam), and
--   in Client.Kube of the Kubernetes API with the tracker of usages (Kube), of crypto/tls, crypto/x509
--   and net/url (Crypto), and of the constructors of the MinIO clients (Dial), as records of functions.
--   They are parameters; what a theorem relies on is a record of laws (IsLawful, Keeps, IsKeeping,
--   IsRemoving and others), and the modules under Tests give each an instance.
-- Cmd: cmd/provider/main.go. Rbac is setupRBAC with the roles that it writes, whose objects and calls are
--   in Client.Rbac; Scheme is apis/init.go, which registers the types of Apis.Register; Main is main up
--   to the start of the manager, with its surroundings in Client.Host.
-- Setup: operator/operator.go and the files setup.go of operator/. Client.Manager is the manager of
--   controller-runtime; a controller is the name, the type, the kinds and the intervals
--   that it is built with.
-- Minio: operator/minioutil. Tls builds the TLS configuration, Endpoints the two clients, each of which
--   stands for what it is made from, and Connect is the part that the five connectors share.
-- Bucket, Policy, User, ServiceAccount, Notification: operator/bucket, operator/policy, operator/user,
--   operator/serviceaccount and operator/notificationconfiguration. In each of them Create, Observe,
--   Update, Delete, Webhook and Connect are the files create.go, observe.go (observer.go), update.go,
--   delete.go, webhook.go and connector.go; Lock, Render, Policies, Identity, Lambda, Match and
--   Validation hold what the handlers share. create is the handler on the resource, create_managed the
--   method with its type assertion, and so for the others. The other modules hold what is proved,
--   each named for its subject.
-- Fleet: several objects of one kind against one MinIO, as steps of the reconciler, over the interface
--   IsOwning (what an object owns, by which name, and whether MinIO has it). Bucket.Fleet, Policy.Fleet and
--   User.Fleet fill it; the keys of service accounts and the entries of
--   notifications do not fit it.
-- Notification.Entry, Unnamed and Growth: minio-go neither writes nor reads the ARN of an entry; Unnamed
--   and Growth are about the handlers on entries that are read back so.
-- Bucket.Feed: the goroutine of deleteAllObjects and the reader of its channel, as a step relation.
-- Reconcile: the clients of the five connectors as implementations of managed.ExternalClient (Client), and
--   the rounds in which crossplane-runtime calls them on a resource (Rounds), also on one that is
--   being deleted and was found, with nobody else at work in between. The reconciler's own annotations, finalizers and conditions on
--   the resource are left out. Family lists the five. Dependency has a Policy and a User together: the
--   webhook of the one reads what the controller of the other writes.
-- Tracing: internal/tracing/tracing.go. Spans has the package's variables and the start of spans, Export is
--   Init; Client.Telemetry is OpenTelemetry.
-- Legacy: Config is internal/clients/minio.go, Consolidated is
--   internal/clients/consolidated_client_creation.go, and User and Setup are
--   internal/controller/user/user.go, none of which the command uses. Match is about the comparison
--   of policies in User.
-- Tests: the theorems at concrete data.
--
-- Loops over slices and maps are structural recursion, so that no fuel is needed. Logging, contexts
-- and the times of conditions are left out, and instants are numbers. In Bucket.Delete the listing
-- of the objects, which runs beside their removal, is taken at its start; Bucket.Feed has the moves of
-- the two.
-- A client's handlers and its Connect are separate definitions: a handler takes the client's calls as
-- a parameter.
-- Not modelled: the spans that the handlers of the older user controller start; the call of tracing.Init
-- and the loggers in main; the controller options that main makes and hands to nobody; the generator of
-- sample manifests (generate_sample.go), which prints fixed objects; and of the generated code of apis the
-- deep copies, which are the identity where values share no memory, and the accessors, which are the
-- fields of the records.
pub mod Base
pub mod Runtime
pub mod Apis
pub mod Client
pub mod Cmd
pub mod Minio
pub mod Bucket
pub mod Policy
pub mod User
pub mod ServiceAccount
pub mod Notification
pub mod Legacy
pub mod Fleet
pub mod Setup
pub mod Reconcile
pub mod Tracing
pub mod Tests
