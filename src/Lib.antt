-- ===== src/Lib.antt =====
-- Verification of the NGINX Ingress Controller for Kubernetes, nginx/kic-1.11.1 in this
-- repository.
--
-- The controller watches objects of the Kubernetes API (Ingress, VirtualServer,
-- VirtualServerRoute, TransportServer, GlobalConfiguration, Secret). The Configuration of
-- internal/k8s decides which of them are active, and tells with lists of changes what the
-- Configurator has to write or remove; problems go to the user. Paths below are from
-- nginx/kic-1.11.1.
--
-- Prelude: lists, Go maps as association lists (Prelude.Dict), sorted keys, traversals that may
-- panic.
-- `none` in the type Option stands for a run-time panic (a nil resource, an index out of range).
--
-- K8s.Objects, K8s.Resource, K8s.State: the objects as far as internal/k8s reads them, the
-- resources (IngressConfiguration, VirtualServerConfiguration, TransportServerConfiguration) with
-- Wins, IsEqual and GetKeyWithKind, and the fields of the Configuration,
-- internal/k8s/configuration.go.
-- K8s.Contest: the body of the loops in which resources claim hosts, listeners or paths.
-- K8s.Minions, K8s.Hosts: buildMinionConfigs, buildVirtualServerRoutes, buildHostsAndResources
-- and updateActiveHostsForIngresses. The source shares one object between its two maps and writes
-- warnings and ValidHosts into it; the model collects what is written and puts it into the object
-- at the end (`finish`), under both maps.
-- K8s.Changes: detectChangesIn..., createResourceChangesFor..., squashResourceChanges; and what
-- the changes do to the deployed configuration, one resource under each key (K8s.Changes.Deploy).
-- K8s.Problems, K8s.Listeners, K8s.Rebuild: the problems, rebuildListeners and rebuildHosts.
-- K8s.Operations: the AddOrUpdate... and Delete... functions; K8s.Operations.Requests names them
-- as requests, and K8s.Operations.Reachable is the step relation of a run of the controller.
-- K8s.Validation, K8s.Annotations, K8s.FieldErrors: validateIngress of
-- internal/k8s/validation.go, with the table of the checks of annotations
-- (K8s.Annotations.Configured), and the errors.
-- K8s.References: the checkers of internal/k8s/reference_checkers.go and the queries.
-- K8s.Secrets: internal/k8s/secrets.
-- K8s.AppProtect: ConfigurationImpl of internal/k8s/appprotect/app_protect_configuration.go,
-- which stores policies, log configurations and user signatures, and says which are valid. Fields
-- and LogDestination are the checks of app_protect_resources.go, Create the functions
-- createAppProtect...Ex, Signatures reconcileUserSigs, Policies verifyPolicies, and Operations
-- the interface Configuration. The source shares objects between its maps and the lists that it
-- sorts; the model writes under their keys.
-- Configs.ParsingHelpers: internal/configs/parsing_helpers.go, with Prelude.Decimal for strconv
-- and Prelude.Strings for the functions of the package strings.
-- Apis.Types: the structures of pkg/apis/configuration/v1/types.go, in Listeners those of
-- v1alpha1.
-- Apis.Validation: pkg/apis/configuration/validation. Names, Variables, Upstreams, Actions,
-- Routes and VirtualServers are common.go and virtualserver.go, Listeners is
-- globalconfiguration.go and transportserver.go. K8s.FieldErrors has the errors, as in the
-- validation of Ingresses.
-- K8s.Examples, Apis.Validation.Witnesses: concrete objects, runs of the code on them, and the
-- theorems at them.
--
-- Every function of the model is total. Fuel is used only to print a number (Prelude.Decimal): n
-- + 1 digits are allowed for n, which is enough, since a tenth of n is below n unless n is 0. A
-- lock is held throughout each operation, so operations are steps one after the other. Creation
-- timestamps, generations and ports are natural numbers that are only compared or copied; an int
-- that is checked or parsed is an unbounded integer (Prelude.Integers), with the bounds that
-- strconv is asked for. Go leaves the order in which a map is visited open: here it is that of
-- the association list; where the source sorts the keys, so does the model.
--
-- Settings of the model: K8s.State.Settings and K8s.Secrets.SecretSettings have the validators of
-- custom resources, the test of the Ingress class, the parsers of certificates and the paths of
-- files; K8s.AppProtect.Library and LogDestinationLibrary the access to fields of unstructured
-- objects, time.Parse, net.ParseIP and regular expressions; Configs.ParsingHelpers.ParsingLibrary
-- the error texts of strconv and the regular expressions; Apis.Validation.ValidationLibrary the
-- regular expressions and the checks of the Kubernetes library.
--
-- Not modelled: the informers and queues of internal/k8s/controller.go; the generation of NGINX
-- configuration in internal/configs, besides its parsing helpers; the validators of policies
-- (pkg/apis/configuration/validation/policy.go); the FakeConfiguration of App Protect; metrics,
-- the main program, generated clients, vendored packages; outside of nginx/kic-1.11.1 the
-- repository holds charts, playbooks and manifests only.
pub mod Apis
pub mod Configs
pub mod K8s
pub mod Prelude
