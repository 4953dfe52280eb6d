-- ===== src/Lib.antt =====
-- A model of strong-soap, a SOAP client and server: the parts of src/parser that load and read WSDL and
-- XSD documents, that decide names, namespaces, descriptors and operations, that restrict values and that
-- read and write XML, with src/security, src/base.js, src/client.js, src/server.js and the requests
-- of src/http.js.
--
-- How the program's parts work together: src/parser/wsdl.js loads a WSDL and builds elements from it
-- (src/parser/element.js), whose schemas describe elements and types (src/parser/xsd);
-- src/parser/wsdl/operation.js computes, for each operation of a binding, its mode and the descriptors of
-- its messages (src/parser/xsd/descriptor.js); src/parser/xmlHandler.js writes and reads XML by those
-- descriptors, with the prefixes that src/parser/nscontext.js keeps and the names that
-- src/parser/qname.js reads; src/client.js and src/server.js call all of these, and src/client.js sends
-- what it writes by src/http.js.
--
-- The files:
-- * NsContext and its children: src/parser/nscontext.js. A scope is a dictionary from prefixes to
--   mappings and a counter; the stack of scopes, innermost first, is also the chain of parents.
--   `getNamespaceURI`, `getPrefix`, `getPrefixMapping`, `generatePrefix`, `addNamespace`,
--   `pushContext`, `popContext`, `registerNamespace` and `declareNamespace` have the same names in
--   snake case. The loop of `generatePrefix` runs on fuel, one round more than there are bound prefixes,
--   which is enough since each failing round meets another bound prefix.
-- * QName and its children: src/parser/qname.js. The regular expression `qnameExp` is a matcher on
--   texts; both forms of the constructor, `toString` and `parse` stand beside it.
-- * Descriptor and its children: src/parser/xsd/descriptor.js. Descriptors are values.
-- * Operation and its children: src/parser/wsdl/operation.js. Operation.antt has `addChild`, `getMode` and
--   the bodies of `describe`; Operation/Envelope.antt has `createEnvelopeDescriptor`, `describeFaults` and
--   `describe`.
-- * XmlReader and its children: src/parser/xmlHandler.js, `xmlToJson` on the events of the sax parser.
--   XmlReader/Tree.antt has the recursive reading of a document that the machine is compared with, and
--   XmlReader/Finish.antt the end of `xmlToJson` with the messages for faults. Of JavaScript's values,
--   `Number(text)`, `new Date(text)` and a sum that is no text stay unevaluated. `selectn`,
--   `JSON.stringify`, the truth of numbers and the merging of multi-references are parameters.
-- * XmlWriter and its children: src/parser/xmlHandler.js, `jsonToXml`, `mapObject`, `addAttributes`,
--   `getXsiType` and `_sortKeys`. What the package xmlbuilder is told is a value of type Calls, in the
--   order of the calls. `jsonToXml` runs on fuel; one more than the depth of the value is enough, since
--   each call of itself is for a part of the value. `Date`, the truth of numbers, the restrictions of
--   simple types, the descriptions of types and the choice of a subtype are fields of Handler.
-- * Exchange and its children: XmlWriter and XmlReader put together for values without descriptors. What
--   the packages xmlbuilder and sax do between them is a record of parameters, for documents without
--   attributes and printed without indentation, for names and texts that XML has and that fit in the
--   buffer of sax.
-- * HttpRequest and its children: src/http.js, `buildRequest` and `isNtlmAuthRequired`. The options for
--   the package request are a dictionary; url.parse, uuid and the version are arguments.
-- * Restriction and its children: src/parser/xsd/restriction.js, `addChild` and `enforce`. What JavaScript
--   makes of numbers, and regular expressions, are a record of parameters. Lengths and the order of
--   texts are those of their UTF-16 units. Restriction/Enforcing.antt fills with `enforce` what XmlWriter
--   asks of restrictions.
-- * Base and its children: src/base.js and `SOAPElement` of src/soapModel.js: the lists of headers,
--   `createNamespaceContext` and `addSoapHeadersToEnvelope`.
-- * Server and its children: src/server.js. Server.antt has the search for the binding and the operation,
--   Server/Replies.antt the envelopes, Server/Requests.antt `_process` and `_executeMethod` with the
--   callback that answers once, Server/Listening.antt the listeners. A service's method is a value: the
--   calls of its callback before it ends, how it ends, and the calls that it makes later. What
--   the response is told is a list of actions. A method does not catch what its callback throws, and what
--   it throws itself is an object.
-- * Client and its children: src/client.js: how an operation's arguments are sorted, the headers and the
--   XML of a request, and what the callback is given for a response. The parser's events, `JSON.parse` and
--   the security object's headers are arguments.
-- * Loading and its children: src/parser/wsdl.js, `load`, `open`, `_loadAsyncOrSync`, `processIncludes` and
--   `_processNextInclude` with the cache. WSDL objects are numbered, and the reads of documents are kept in
--   a list. `load` runs on fuel, which bounds how deep includes lead; the number of documents that can be
--   reached is enough, since a document is in the cache before its includes are loaded. What parsing,
--   lodash's merge and post-processing do to definitions are fields of Reader; WsdlReader, Schemas and Xsd
--   model parts of them, and are not put together with the loading.
-- * WsdlReader and its children: `_parse` of src/parser/wsdl.js on the events of the sax parser, with the
--   constructor, `startElement`, `endElement` and the lookups of src/parser/element.js.
--   WsdlReader/Registry.antt has src/parser/typeRegistry.js. The parent of an element is the next one on
--   the stack, and an element keeps its children as trees; of the addChild of their classes only that of
--   src/parser/wsdl/types.js throws, and that assertion is modelled.
-- * Schemas and its children: src/parser/xsd/schema.js (`addChild`, `merge`), `addChild` of
--   src/parser/wsdl/types.js, the includes of all schemas, and `resolveSchemaObject` of
--   src/parser/element.js. lodash's `merge` and `uniq` are parameters.
-- * Xsd and its children: `describe` and `describeChildren` of the classes in src/parser/xsd that have
--   content. A node of a schema stands with what its references, types and bases described.
-- * Bindings and its children: `postProcess` of part.js, message.js, parameter.js, operation.js,
--   portType.js, binding.js and service.js in src/parser/wsdl. A message is the dictionary of its parts;
--   the names that these refer to are read here, and resolving a name is in Schemas.
-- * SimpleTypes and its children: `postProcess` of simpleType.js, list.js, union.js and, in simple types,
--   restriction.js of src/parser/xsd. Simple types are numbered, and stand in a store with what their
--   references resolved to and the value of their field type. The fuel counts the types without a value,
--   which is enough since a type gets its default before others are processed for it.
--   SimpleTypes/BuiltIn.antt has the table of src/parser/helper.js.
-- * Security and its children: src/security/WSSecurity.js with `passwordDigest` and `toXMLDate` of
--   src/utils.js, as calls on xmlbuilder, which Client's `invoke_message` takes; CookieSecurity.js,
--   BearerSecurity.js and BasicAuthSecurity.js. Hashing and bytes are the record Crypto, and the time is
--   given by its parts. Security/Receiver.antt has a receiver of the token.
-- * Common and its children: dictionaries, results of calls and texts of numbers, for all of them.
--
-- What the model leaves out: an object used as a dictionary keeps its keys in insertion order here, and
-- keys that are integers, which JavaScript moves to the front, or that are members of Object.prototype,
-- which `in` and property reads find, are outside the model. Names of elements in schemas that are members
-- of the elements' classes, which their addChild would overwrite, and ports without a location that
-- url.parse reads are outside the model too. A text is a list of Unicode characters, of which only
-- Restriction makes UTF-16 units. `refOriginal` of descriptors, file and network access, logging,
-- translated messages and the packages that the code calls (sax, xmlbuilder, xml-crypto, request and
-- others) have no definitions. The description of simple types, `createSOAPEnvelope`, `parseXml`, CDATA
-- sections and multi-references in XML that is read, and the security classes for TLS, NTLM and signatures
-- are not modelled.
pub mod Common
pub mod NsContext
pub mod QName
pub mod Descriptor
pub mod Operation
pub mod XmlReader
pub mod HttpRequest
pub mod XmlWriter
pub mod Base
pub mod Server
pub mod Client
pub mod Restriction
pub mod Loading
pub mod Xsd
pub mod WsdlReader
pub mod Schemas
pub mod Bindings
pub mod Security
pub mod SimpleTypes
pub mod Exchange
