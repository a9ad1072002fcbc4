-- ===== src/Lib.antt =====
-- karpenter-provider-yandex: a provider of nodes from Yandex Cloud for the autoscaler Karpenter.
--
-- The program keeps Kubernetes node claims and node groups of the cloud in step. A YandexNodeClass
-- says which subnets, disk and labels new nodes get; its controller resolves and validates it. The
-- cloud provider answers Karpenter: it creates one node group of fixed size 1 for each claim,
-- deletes it, and lists the groups as claims. Two collectors remove groups that cannot come up and
-- instances without a claim. All of them reach the cloud through one client, part of whose answers
-- is cached.
--
-- Files, and the code that they are about:
--   Prelude           errors as values, maps as association lists, the cache, sort.Slice, `<` on texts
--   Yandex            pkg/yandex: types.go (Platform, InstanceType, with Decimal and Split for
--                     strconv and strings.Split), utils.go (MatchLabels), sdk.go (NodeGroup, Sdk,
--                     Sdk/Create), cached_sdk.go (CachedSdk), auth.go (Auth)
--   NodeClass         pkg/apis/v1alpha1 (Types) and pkg/controllers/nodeclass: validation.go (Disk,
--                     San, SecurityGroups, Selector, CacheKeys, Validation), subnet.go
--                     (SubnetReconciler), controller.go (Controller), events.go (Events)
--   Subnet            pkg/providers/subnet/subnet.go
--   CloudProvider     pkg/cloudprovider/cloudprovider.go: Types, GroupLabels (nodeGroupLabels), Claim
--                     (nodeGroupToNodeClaim), Resolve, Operations (Delete, Get, List,
--                     GetInstanceTypes), Create, Events (and events/events.go), Deletion (Delete over
--                     the cached client, as the operator joins them), Cheapest (the order of the
--                     types), Launches (what is launched) and Listed (Create over the cached
--                     client, with Requested)
--   Pricing           pkg/providers/pricing: pricing.go (Provider), ru.pricing.go (Table) and
--                     tools/price_gen.go (Generator: Names, Percent for its regular expression, Skus,
--                     Disks, Pages, Output)
--   InstanceTypes     pkg/providers/instancetype: types.go (Requirements, NewType), offering/offering.go
--                     (Offerings; Prices joins it with the default prices), provider.go (Provider),
--                     ru.configuration.go (Configuration) and tools/config_gen.go (Generator: Cores,
--                     Distinct, Output)
--   Collector         pkg/controllers/cloud/garbagecollection (Duplicates) and
--                     pkg/controllers/nodeclaim/garbagecollection (Orphans, with Workers for its
--                     parallel deletions)
--   Startup           pkg/operator: operator.go and options
--   Tests             runs on concrete inputs
--
-- A Go function has the name of the source in snake case; its early returns are branches of a
-- clause. Code outside the repository is a parameter: the cloud's API (Sdk.Api, Create.Cloud), the
-- Kubernetes client (Controller.Kube, Types.KubeReader), the condition set, go-cache (Cache.CacheOf),
-- the hashes, resource quantities (InstanceType.Quantities) and Karpenter's scheduling library
-- (Types.Karpenter). What is asked of them stands as the fields of these records. Time is a number of
-- seconds, or of nanoseconds where a token expires; a panic of Go is the value none or panicked. Loops follow a list, so they need no fuel:
-- the wait for a provider id runs over the answers that arrive in its five minutes. The pages of the
-- price list are the exception; there the fuel bounds the pages, and their number is enough. An error
-- text keeps the words that the program tests for; log lines are left out.
--
-- Floating point is a parameter (Provider.Floats, Skus.Parsing, Generator.Memories), except in the
-- overhead of a node: the reserved memory is summed in hundredths, the reserved CPU in tenths of a
-- millicore, and each is divided once, where the source rounds products of float64.
--
-- Not modelled: the generated deep copies, the wiring of the controllers and flags in main.go,
-- controllers.go and operator.go, the requests over HTTP and the templates of the two generators, and
-- the registration of types and watches, which have no state of the program's own.
pub mod Prelude
pub mod Yandex
pub mod NodeClass
pub mod Subnet
pub mod CloudProvider
pub mod Pricing
pub mod Startup
pub mod InstanceTypes
pub mod Collector
pub mod Tests
